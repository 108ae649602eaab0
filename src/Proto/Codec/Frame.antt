-- ===== src/Proto/Codec/Frame.antt =====
-- A frame around any header: the bytes of the header, the payload, the padding that
-- `layout_for_payload` of include/jellybean/proto/frame.hpp leaves room for, and the checksum.
use jellybean.Base.{ℕ, ◌+◌, ◌-◌, ◌^◌, ◌≤◌, ◌<◌, ◌≡◌, sym, ap, ◌∙◌, arith, List, ◌++◌}
use jellybean.Base.{length, drop, replicate, copy_at, copy_at-append, append_assoc}
use jellybean.Base.{length-append, length-replicate}
use jellybean.Base.Words.{le_bytes}
use jellybean.Proto.Crc.{Target, crc32c}
use jellybean.Proto.Wire.{FrameHeader, header_bytes, layout_for_payload}
use jellybean.Proto.Wire.Header.{length-header_bytes}
use jellybean.Proto.Wire.Layout.{IsLaidOut, layout-IsLaidOut}

abbrev pub covered : FrameHeader → List ℕ → List ℕ
covered header payload = header_bytes header ++ payload

abbrev pub padding : List ℕ → List ℕ
padding payload =
    replicate ((layout_for_payload (length payload)).padded_payload_size - length payload) 0

abbrev pub checksum : Target → FrameHeader → List ℕ → List ℕ
checksum t header payload = le_bytes 4 (crc32c t (covered header payload))

abbrev pub frame : Target → FrameHeader → List ℕ → List ℕ
frame t header payload = covered header payload ++ (padding payload ++ checksum t header payload)

pub length-covered :
    (header : FrameHeader) (payload : List ℕ)
    → length (covered header payload) ≡ 32 + length payload
length-covered header payload =
    omega (arith, length-append (header_bytes header) payload, length-header_bytes header)

-- The checksum stands at the offset of the layout, and the frame has the size of the layout.
pub length-covered-padding :
    (header : FrameHeader) (payload : List ℕ)
    → length payload < 2 ^ 32
    → length (covered header payload ++ padding payload)
      ≡ (layout_for_payload (length payload)).crc_offset
length-covered-padding header payload small = omega (
  arith,
  length-append (covered header payload) (padding payload),
  length-covered header payload,
  length-replicate {A = ℕ}
      ((layout_for_payload (length payload)).padded_payload_size - length payload) 0,
  ok.holds,
  ok.crc_at,
)
  where
    ok : IsLaidOut (length payload)
    ok = layout-IsLaidOut (length payload) small

pub length-frame :
    (t : Target) (header : FrameHeader) (payload : List ℕ)
    → length payload < 2 ^ 32
    → length (frame t header payload) ≡ (layout_for_payload (length payload)).total_size
length-frame t header payload small =
    ap length
      (sym (append_assoc (covered header payload) (padding payload) (checksum t header payload)))
    ∙ omega (
      arith,
      length-append (covered header payload ++ padding payload) (checksum t header payload),
      length-covered-padding header payload small,
      (layout-IsLaidOut (length payload) small).ends_at,
    )

-- A write that begins where a prefix ends makes the prefix longer.
pub copy_next :
    (off : ℕ) (pre bytes rest : List ℕ)
    → off ≡ length pre
    → length bytes ≤ length rest
    → copy_at off bytes (pre ++ rest) ≡ (pre ++ bytes) ++ drop (length bytes) rest
copy_next off pre bytes rest e room =
    ap (λ k. copy_at k bytes (pre ++ rest)) e
    ∙ copy_at-append pre bytes rest room
    ∙ sym (append_assoc pre bytes (drop (length bytes) rest))
