-- ===== src/Telemetry/Report/Json.antt =====
-- The part of the grammar of JSON (RFC 8259) that a report needs, with the values that texts denote.
use jellybean.Base.{ℕ, ◌+◌, ◌*◌, ◌<◌, ◌≡◌, Bool, true, ◌&&◌, not, List, [], ◌∷◌, ◌++◌, leb, ◌==◌}
use jellybean.Base.Text.{Text, one_of}

-- White space.
abbrev pub all_blank : Text → Bool
all_blank [] = true
all_blank (c ∷ cs) = one_of (b' ' ∷ 9 ∷ 10 ∷ 13 ∷ []) c && all_blank cs

-- A string that is written as it is, without escapes.
abbrev pub all_plain : Text → Bool
all_plain [] = true
all_plain (c ∷ cs) = (leb 32 c && not (c == b'"') && not (c == b'\\')) && all_plain cs

-- A number in base ten, which has no zeros in front.
pub data Denotes : Text → ℕ → Type 0 where
  one_digit : (d : ℕ) → d < 10 → Denotes ((b'0' + d) ∷ []) d
  next_digit :
      (t : Text) (n d : ℕ)
      → Denotes t n
      → 0 < n
      → d < 10
      → Denotes (t ++ ((b'0' + d) ∷ [])) (10 * n + d)

module _ {V : Type 0} (Value : Text → V → Type 0) where
  pub data Member : Text → Text × V → Type 0 where
    member :
        (ws k ws' t : Text) (v : V)
        → all_blank ws ≡ true
        → all_plain k ≡ true
        → all_blank ws' ≡ true
        → Value t v
        → Member (ws ++ (b'"' ∷ (k ++ (b'"' ∷ b':' ∷ (ws' ++ t))))) (k, v)

  -- An object behind its opening brace.
  pub data Members : Text → List (Text × V) → Type 0 where
    no_members : (ws : Text) → all_blank ws ≡ true → Members (ws ++ (b'}' ∷ [])) []
    last_member :
        (m ws : Text) (kv : Text × V)
        → Member m kv
        → all_blank ws ≡ true
        → Members (m ++ (ws ++ (b'}' ∷ []))) (kv ∷ [])
    next_member :
        (m rest : Text) (kv kv' : Text × V) (kvs : List (Text × V))
        → Member m kv
        → Members rest (kv' ∷ kvs)
        → Members (m ++ (b',' ∷ rest)) (kv ∷ kv' ∷ kvs)

  pub data Object : Text → List (Text × V) → Type 0 where
    object : (t : Text) (kvs : List (Text × V)) → Members t kvs → Object (b'{' ∷ t) kvs

  -- A text of one object and white space.
  pub data Document : Text → List (Text × V) → Type 0 where
    document :
        (t ws : Text) (kvs : List (Text × V))
        → Object t kvs
        → all_blank ws ≡ true
        → Document (t ++ ws) kvs
