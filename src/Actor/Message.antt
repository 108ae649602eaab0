-- ===== src/Actor/Message.antt =====
-- `Message` of include/jellybean/actor/actor.hpp and src/actor/actor.cpp, over a heap: a block is its
-- bytes, and the null pointer is 0. `std::malloc` is no code of the repository, and is an argument.
pub mod Program
pub mod Owned
pub mod Gains
pub mod Safe
pub mod Runs
use jellybean.Base.{
  ℕ, Bool, true, false, not, ◌&&◌, Option, none, some, List, [], ◌∷◌, length, take, replicate, ltb,
  leb, ◌==◌, if◌then◌else◌,
}

abbrev pub Heap : Type 0
Heap = ℕ → Option (List ℕ)

abbrev pub put_block : Heap → ℕ → Option (List ℕ) → Heap
put_block h p v q = if p == q then v else h q

-- `std::abort`, and an access to a block that is not there.
pub data Run (A : Type 0) : Type 0 where
  done : A → Heap → Run A
  aborted : Run A
  fault : Run A

abbrev pub inline_size : ℕ
inline_size = 48

-- The union, by the member that was written last.
pub data Storage : Type 0 where
  inline_data : List ℕ → Storage
  heap_data : (ptr size : ℕ) → Storage

pub record Message : Type 0 where
  pub type_id : ℕ
  pub sender_shard : ℕ
  pub sender_id : ℕ
  pub storage : Storage
  pub is_inline : Bool

abbrev zeros : Storage
zeros = inline_data (replicate inline_size 0)

-- The default constructor.
abbrev pub new_message : Message
new_message = record {
  type_id = 0;
  sender_shard = 0;
  sender_id = 0;
  storage = zeros;
  is_inline = true;
}

-- The members but the payload, and the payload.
abbrev like : Message → Storage → Message
like other storage = record other { storage = storage }

-- `std::free`, and the members that `destroy` resets.
unfoldable pub free_block : ℕ → ℕ → Message → Heap → Run Message
free_block ptr size m h = elim (h ptr) [
  | none ↦ fault
  | some bytes ↦
      done (record m { storage = heap_data 0 0; is_inline = true }) (put_block h ptr none)
]

unfoldable pub destroy_storage : Message → Storage → Heap → Run Message
unfolding free_block
destroy_storage m (inline_data bytes) h = fault
destroy_storage m (heap_data ptr size) h = if ptr == 0 then done m h else free_block ptr size m h

-- The destructor calls it too.
unfoldable pub destroy : Message → Heap → Run Message
unfolding destroy_storage
destroy m h = if m.is_inline then done m h else destroy_storage m m.storage h

-- `malloc` and `memcpy` of a payload on the heap.
unfoldable pub copy_block : Option ℕ → Message → ℕ → Option (List ℕ) → Heap → Run Message
copy_block none other size source h = aborted
copy_block (some p) other size none h = fault
copy_block (some p) other size (some bytes) h =
    done (like other (heap_data p size)) (put_block h p (some (take size bytes)))

module _ (malloc : Heap → ℕ → Option ℕ) where
  unfoldable pub copy_storage : Message → Storage → Heap → Run Message
  unfolding copy_block
  copy_storage other (inline_data bytes) h = fault
  copy_storage other (heap_data ptr size) h = copy_block (malloc h size) other size (h ptr) h

  -- The copy constructor.
  unfoldable pub copy : Message → Heap → Run Message
  unfolding copy_storage
  copy other h = if other.is_inline then done other h else copy_storage other other.storage h

  -- `set` for a value of these bytes. What lies behind them in the union nothing reads.
  unfoldable pub set_payload : List ℕ → Message → Heap → Run Message
  set_payload val m h =
      if leb (length val) inline_size
      then done (record m { storage = inline_data val; is_inline = true }) h
      else elim (malloc h (length val)) [
        | none ↦ aborted
        | some p ↦
            done (record m { storage = heap_data p (length val); is_inline = false })
              (put_block h p (some val))
      ]

-- The move constructor: the new message, and what is left in the other one.
unfoldable pub move_from : Message → Message × Message
move_from other =
    if other.is_inline
    then (other, other)
    else (other, record other { storage = zeros; is_inline = true })

-- `as` for a type of this size: the bytes that it reads.
unfoldable pub as_bytes : ℕ → Storage → Heap → Option (List ℕ)
as_bytes size (inline_data bytes) h = some (take size bytes)
as_bytes size (heap_data ptr n) h = elim (h ptr) [
  | none ↦ none
  | some bytes ↦ some (take size bytes)
]
