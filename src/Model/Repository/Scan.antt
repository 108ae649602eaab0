-- ===== src/Model/Repository/Scan.antt =====
-- `scan_and_load`: its counts, and what an exception does to it.
use mathlib.Core.Path.{subst}
use jellybean.Base.{
  ℕ, ◌+◌, ◌≡◌, inl, inr, refl, sym, ap, ◌∙◌, arith, Bool, true, false, Bool-cases, some, List, [],
  ◌∷◌, ◌++◌, length, length-append, if◌then◌else◌,
}
use jellybean.Base.Text.{Text}
use jellybean.Base.Outcome.{Outcome, Exception, ok, throws}
use jellybean.Model.Config.{from_dir, filename}
use jellybean.Inference.Torch.{TorchLoader}
use jellybean.Model.Registry.{Models}
use jellybean.Model.Repository.{
  RepoEntry, LoadResult, no_result, is_skipped, and_then, counted, count_load, load_model,
  scan_entry, scan_entries, scan_and_load,
}
use jellybean.Model.Repository.Load.{load_model-throws}

-- How many of the entries are directories.
abbrev pub directories : List RepoEntry → ℕ
directories [] = 0
directories (e ∷ es) = (if e.is_directory then 1 else 0) + directories es

abbrev pub total : LoadResult → ℕ
total r = r.loaded + r.failures + r.skipped

-- Every directory is counted once, and every failure has its name.
abbrev pub Counts : ℕ → LoadResult → LoadResult → Type 0
Counts n r r' =
    (total r' ≡ total r + n)
    × (length r'.failed_names + r.failures ≡ length r.failed_names + r'.failures)

-- Where nothing is thrown.
abbrev pub CountsAll {ℓ} : {W : Type ℓ} → ℕ → LoadResult → Outcome LoadResult × W → Type 0
CountsAll n r o = (r' : LoadResult) → o.0 ≡ ok r' → Counts n r r'

counted-Counts : (r : LoadResult) (name : Text) (b : Bool) → Counts 1 r (counted r name b)
counted-Counts r name true = omega arith
counted-Counts r name false = omega (arith, length-append r.failed_names (name ∷ []))

ok-Counts : (n : ℕ) (r r1 r' : LoadResult) → Counts n r r1 → ok r1 ≡ ok r' → Counts n r r'
ok-Counts n r r1 r' c e = subst (Counts n r) (inj r1 r' e) c
  where
    inj : (a b : LoadResult) → ok a ≡ ok b → a ≡ b
    inj a b h = cc

count_load-CountsAll {ℓ} :
    {W : Type ℓ} (r : LoadResult) (name : Text) (o : Outcome Bool × W)
    → CountsAll 1 r (count_load r name o)
unfolding count_load
count_load-CountsAll r name (throws e, w) r' h = absurd (cc h)
count_load-CountsAll r name (ok b, w) r' h =
    ok-Counts 1 r (counted r name b) r' (counted-Counts r name b) h

and_then-Counts {ℓ} :
    {W : Type ℓ} (n k : ℕ) (r : LoadResult) (o : Outcome LoadResult × W)
    (f : LoadResult × W → Outcome LoadResult × W)
    → CountsAll n r o
    → ((t : LoadResult × W) → CountsAll k t.0 (f t))
    → CountsAll (n + k) r (and_then o f)
and_then-Counts n k r (throws e, w) f c d r' h = absurd (cc h)
and_then-Counts n k r (ok r1, w) f c d r' h = omega (arith, c r1 refl, d (r1, w) r' h)

and_then_assoc {ℓ} :
    {W : Type ℓ} (o : Outcome LoadResult × W) (f g k : LoadResult × W → Outcome LoadResult × W)
    → ((t : LoadResult × W) → k t ≡ and_then (f t) g)
    → and_then o k ≡ and_then (and_then o f) g
and_then_assoc (throws e, w) f g k h = refl
and_then_assoc (ok r, w) f g k h = h (r, w)

module _ {ℓ} {Module : Type ℓ} (torch : TorchLoader Module) where
  module _ (s : LoadResult × Models Module) (e : RepoEntry) where
    scan_entry-file : e.is_directory ≡ false → scan_entry torch s e ≡ (ok s.0, s.1)
    unfolding scan_entry
    scan_entry-file h = rw h

    scan_entry-skip :
        e.is_directory ≡ true
        → is_skipped e.dir ≡ true
        → scan_entry torch s e ≡ (ok (record s.0 { skipped = s.0.skipped + 1 }), s.1)
    unfolding scan_entry
    scan_entry-skip h k = rw h (
        ap
          (λ b.
            if b
            then (ok (record s.0 { skipped = s.0.skipped + 1 }), s.1)
            else count_load s.0 (filename e.dir.path) (load_model torch s.1 e.dir))
          k)

    scan_entry-load :
        e.is_directory ≡ true
        → is_skipped e.dir ≡ false
        → scan_entry torch s e ≡ count_load s.0 (filename e.dir.path) (load_model torch s.1 e.dir)
    unfolding scan_entry
    scan_entry-load h k = rw h (
        ap
          (λ b.
            if b
            then (ok (record s.0 { skipped = s.0.skipped + 1 }), s.1)
            else count_load s.0 (filename e.dir.path) (load_model torch s.1 e.dir))
          k)

    scan_entry-Counts :
        (r' : LoadResult)
        → (scan_entry torch s e).0 ≡ ok r'
        → Counts (if e.is_directory then 1 else 0) s.0 r'
    scan_entry-Counts r' h = elim (Bool-cases e.is_directory) [
      | inr file ↦
          ok-Counts _ s.0 s.0 r' (rw file (omega arith))
            (sym (ap (λ o. o.0) (scan_entry-file file)) ∙ h)
      | inl dir ↦ elim (Bool-cases (is_skipped e.dir)) [
        | inl skip ↦
            ok-Counts _ s.0 (record s.0 { skipped = s.0.skipped + 1 }) r' (rw dir (omega arith))
              (sym (ap (λ o. o.0) (scan_entry-skip dir skip)) ∙ h)
        | inr go ↦ rw dir (
            count_load-CountsAll s.0 (filename e.dir.path) (load_model torch s.1 e.dir) r'
              (sym (ap (λ o. o.0) (scan_entry-load dir go)) ∙ h))
      ]
    ]

  scan_entries-CountsAll :
      (s : LoadResult × Models Module) (es : List RepoEntry)
      → CountsAll (directories es) s.0 (scan_entries torch s es)
  unfolding scan_entries
  scan_entries-CountsAll s [] r' h = ok-Counts 0 s.0 s.0 r' (omega arith) h
  scan_entries-CountsAll s (e ∷ es) r' h =
      and_then-Counts (if e.is_directory then 1 else 0) (directories es) s.0 (scan_entry torch s e)
        (λ t. scan_entries torch t es) (scan_entry-Counts s e) (λ t. scan_entries-CountsAll t es) r'
        h

  -- A scan that throws nothing counts every directory of the repository once, as loaded, failed or
  -- skipped, and names as many models as failed.
  scan_and_load-Counts :
      (es : List RepoEntry) (w : Models Module) (r : LoadResult)
      → (scan_and_load torch (some es) w).0 ≡ ok r
      → (r.loaded + r.failures + r.skipped ≡ directories es) × (length r.failed_names ≡ r.failures)
  unfolding scan_and_load
  scan_and_load-Counts es w r h = omega (arith, scan_entries-CountsAll (no_result, w) es r h)

  scan_entries-append :
      (s : LoadResult × Models Module) (es fs : List RepoEntry)
      → scan_entries torch s (es ++ fs)
        ≡ and_then (scan_entries torch s es) (λ t. scan_entries torch t fs)
  unfolding scan_entries
  scan_entries-append s [] fs = refl
  scan_entries-append s (e ∷ es) fs =
      and_then_assoc (scan_entry torch s e) (λ t. scan_entries torch t es)
        (λ t. scan_entries torch t fs) (λ t. scan_entries torch t (es ++ fs))
        (λ t. scan_entries-append t es fs)

  -- A configuration that throws ends the scan with its exception. What was loaded before stays in
  -- the registry, and nothing behind it in the repository is loaded.
  pub scan_and_load-throws :
      (before after : List RepoEntry) (bad : RepoEntry) (w w' : Models Module) (r : LoadResult)
      (e : Exception)
      → scan_and_load torch (some before) w ≡ (ok r, w')
      → bad.is_directory ≡ true
      → is_skipped bad.dir ≡ false
      → from_dir bad.dir ≡ throws e
      → scan_and_load torch (some (before ++ (bad ∷ after))) w ≡ (throws e, w')
  unfolding scan_and_load scan_entries
  scan_and_load-throws before after bad w w' r e h dir go bad_config =
      scan_entries-append (no_result, w) before (bad ∷ after)
      ∙ (ap (λ t. and_then t (λ u. scan_entries torch u (bad ∷ after))) h
          ∙ ap (λ t. and_then t (λ u. scan_entries torch u after)) bad_round)
    where
      bad_round : scan_entry torch (r, w') bad ≡ (throws e, w')
      bad_round =
          scan_entry-load (r, w') bad dir go
          ∙ ap (count_load r (filename bad.dir.path))
              (load_model-throws torch w' bad.dir e bad_config)
