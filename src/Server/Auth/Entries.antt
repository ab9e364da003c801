-- ===== src/Server/Auth/Entries.antt =====
-- The loop over the lines of a file, and the comparison with a hash.
use go_hauk.Prelude.{
  true-false, Bool-cases, All, Text, text_eq, text_eq_iff, ◌≡◌, refl, sym, ap, subst, ◌∙◌, ◌≢◌, ◌↔◌,
  ◌⊎◌, inl, inr, true, Option, none, some, List, [], ◌∷◌, ◌++◌, arith,
}
use mathlib.Core.Option.{some-injective}
use go_hauk.Server.Auth.{Outcome, Libraries, entry_of, check_hash, try_entry, scan_entries}

-- No line names the user.
abbrev pub IsUnnamed : Text → Text → Type 0
IsUnnamed user line = (hash : Text) → entry_of line ≢ some (user, hash)

-- The first line that names the user has the hash.
pub record FirstEntry (user hash : Text) (lines : List Text) : Type 0 where
  pub before : List Text
  pub line : Text
  pub behind : List Text
  pub lines_eq : lines ≡ before ++ line ∷ behind
  pub before_unnamed : All (IsUnnamed user) before
  pub entry_eq : entry_of line ≡ some (user, hash)

module _ {C : Type 0} (libs : Libraries C) where
  pub check_hash_iff :
      (hash pass : Text) → (check_hash libs hash pass ≡ none) ↔ (libs.compare hash pass ≡ true)
  check_hash_iff hash pass = elim (Bool-cases (libs.compare hash pass)) [
    | inl h ↦ (λ _. h, λ _. rw h refl)
    | inr h ↦ (λ e. ground (arith), λ e. ground (arith))
  ]

  -- A line that does not name the user is passed over.
  FirstEntry-skip :
      (user hash line : Text) (lines : List Text)
      → IsUnnamed user line
      → FirstEntry user hash lines
      → FirstEntry user hash (line ∷ lines)
  FirstEntry-skip user hash line lines u f = record {
    before = line ∷ f.before;
    line = f.line;
    behind = f.behind;
    lines_eq = ap (λ ls. line ∷ ls) f.lines_eq;
    before_unnamed = (u, f.before_unnamed);
    entry_eq = f.entry_eq;
  }

  FirstEntry-here :
      (user hash line : Text) (lines : List Text)
      → entry_of line ≡ some (user, hash)
      → FirstEntry user hash (line ∷ lines)
  FirstEntry-here user hash line lines e = record {
    before = [];
    line = line;
    behind = lines;
    lines_eq = refl;
    before_unnamed = tt;
    entry_eq = e;
  }

  -- The lines after one that is not for the user.
  FirstEntry-rest :
      (user hash line : Text) (lines : List Text)
      → FirstEntry user hash (line ∷ lines)
      → (entry_of line ≡ some (user, hash)) ⊎ (IsUnnamed user line × FirstEntry user hash lines)
  FirstEntry-rest user hash line lines f = go f.before f.lines_eq f.before_unnamed
    where
      go :
          (before : List Text)
          → line ∷ lines ≡ before ++ f.line ∷ f.behind
          → All (IsUnnamed user) before
          → (entry_of line ≡ some (user, hash)) ⊎ (IsUnnamed user line × FirstEntry user hash lines)
      go [] e u = let same : line ≡ f.line = cc in inl (ap entry_of same ∙ f.entry_eq)
      go (b ∷ before) e (u, us) =
          let same : b ≡ line = cc in
          inr (
            subst (IsUnnamed user) same u,
            record {
              before = before;
              line = f.line;
              behind = f.behind;
              lines_eq = cc;
              before_unnamed = us;
              entry_eq = f.entry_eq;
            },
          )

  -- A line is for the user, and decides, or it is not, and the others do.
  try_entry-cases :
      (user pass : Text) (rest : Outcome) (o : Option (Text × Text))
      → ((hash : Text) × (o ≡ some (user, hash))
          × (try_entry libs user pass rest o ≡ check_hash libs hash pass))
        ⊎ (((hash : Text) → o ≢ some (user, hash)) × (try_entry libs user pass rest o ≡ rest))
  try_entry-cases user pass rest none = inr ((λ h p. ground (arith)), refl)
  try_entry-cases user pass rest (some (name, hash)) = elim (Bool-cases (text_eq name user)) [
    | inl same ↦
        let q = (text_eq_iff name user).0 same in
        inl (hash, ap (λ n. some (n, hash)) q, rw same refl)
    | inr other ↦ inr (
      (λ h p.
          let q = (text_eq_iff name user).1 (ap (λ x. x.0) (some-injective _ _ p)) in
          true-false (sym q ∙ other)),
      rw other refl,
    )
  ]

  pub scan_entries_iff :
      (user pass : Text) (lines : List Text)
      → (scan_entries libs user pass lines ≡ none)
        ↔ ((hash : Text) × FirstEntry user hash lines × (libs.compare hash pass ≡ true))
  unfolding scan_entries
  scan_entries_iff user pass [] = (
    λ e. absurd (ground (arith)),
    λ (hash, f, c). absurd (nowhere f.line f.behind f.before f.lines_eq),
  )
    where
      nowhere : (line : Text) (behind before : List Text) → [] ≡ before ++ line ∷ behind → ⊥
      nowhere line behind [] e = cc
      nowhere line behind (b ∷ before) e = cc
  scan_entries_iff user pass (line ∷ lines) =
      elim (try_entry-cases user pass (scan_entries libs user pass lines) (entry_of line)) [
        | inl (hash, e, q) ↦ (
          λ z. (
            hash,
            FirstEntry-here user hash line lines e,
            (check_hash_iff hash pass).0 (sym q ∙ z),
          ),
          λ (h, f, c). q ∙ (check_hash_iff hash pass).1 (decided h hash e f c),
        )
        | inr (u, q) ↦ (
          λ z.
              let (h, f, c) = (scan_entries_iff user pass lines).0 (sym q ∙ z) in
              (h, FirstEntry-skip user h line lines u f, c),
          λ (h, f, c). q ∙ (scan_entries_iff user pass lines).1 (h, passed h u f, c),
        )
      ]
    where
      decided :
          (h hash : Text)
          → entry_of line ≡ some (user, hash)
          → FirstEntry user h (line ∷ lines)
          → libs.compare h pass ≡ true
          → libs.compare hash pass ≡ true
      decided h hash e f c = elim (FirstEntry-rest user h line lines f) [
        | inl q ↦
            subst (λ x. libs.compare x pass ≡ true) (ap (λ x. x.1) (some-injective _ _ (sym q ∙ e)))
              c
        | inr (u, g) ↦ absurd (u hash e)
      ]

      passed :
          (h : Text)
          → IsUnnamed user line
          → FirstEntry user h (line ∷ lines)
          → FirstEntry user h lines
      passed h u f = elim (FirstEntry-rest user h line lines f) [
        | inl q ↦ absurd (u h q)
        | inr (v, g) ↦ g
      ]
