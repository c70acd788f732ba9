-- ===== src/Retro/Tags/Clean.antt =====
-- internal/retro/job.go: the tags of what the jobs retain.
use microagent.Prelude.{
  String, Bool, true, false, not, ◌&&◌, ◌||◌, ◌≡◌, refl, ap, ◌∙◌, List, [], ◌∷◌, map, if◌then◌else◌,
  Bool-cases, inl, inr, arith,
}
use microagent.Prelude.Text.{str_eq, eq_iff, eq_refl}
use microagent.Response.{is_seen}
use microagent.Retro.Tags.{
  unique_from, unique_tags, strip_corrections_tag, ExtractedMemory, build_extract_retain_request,
}

-- No text occurs twice.
abbrev pub NoRepeats : List String → Type 0
NoRepeats [] = Unit
NoRepeats (x ∷ xs) = (is_seen x xs ≡ false) × NoRepeats xs

same_seen :
    (x t : String) (seen : List String)
    → (is_seen t seen && str_eq t x) ≡ (is_seen x seen && str_eq t x)
same_seen x t seen = elim (Bool-cases (str_eq t x)) [
  | inl e ↦ ap (λ k. is_seen k seen && str_eq t x) ((eq_iff t x).0 e)
  | inr e ↦ ground (arith, e)
]

same_empty : (x t : String) → (str_eq t "" && str_eq t x) ≡ (str_eq x "" && str_eq t x)
same_empty x t = elim (Bool-cases (str_eq t x)) [
  | inl e ↦ ap (λ k. str_eq k "" && str_eq t x) ((eq_iff t x).0 e)
  | inr e ↦ ground (arith, e)
]

is_seen_if :
    (x t : String) (b : Bool) (skipped kept : List String)
    → is_seen x (if b then skipped else t ∷ kept)
      ≡ (if b then is_seen x skipped else str_eq t x || is_seen x kept)
unfolding is_seen
is_seen_if x t true skipped kept = refl
is_seen_if x t false skipped kept = refl

joins :
    (blank same_blank held same_held same later skipped kept : Bool)
    → (blank && same) ≡ (same_blank && same)
    → (held && same) ≡ (same_held && same)
    → skipped ≡ (not same_blank && (not same_held && later))
    → kept ≡ (not same_blank && (not (same || same_held) && later))
    → (if blank || held then skipped else same || kept)
      ≡ (not same_blank && (not same_held && (same || later)))
joins blank same_blank held same_held same later skipped kept p q r s = ground (arith, p, q, r, s)

strip_joins :
    (corrects same_corrects same rest seen : Bool)
    → (corrects && same) ≡ (same_corrects && same)
    → rest ≡ (seen && not same_corrects)
    → (if corrects then rest else same || rest) ≡ ((same || seen) && not same_corrects)
strip_joins corrects same_corrects same rest seen p q = ground (arith, p, q)

module _ (trim : String → String) where
  is_seen-unique_from :
      (x : String) (seen tags : List String)
      → is_seen x (unique_from trim seen tags)
        ≡ (not (str_eq x "") && (not (is_seen x seen) && is_seen x (map trim tags)))
  unfolding is_seen unique_from
  is_seen-unique_from x seen [] = ground arith
  is_seen-unique_from x seen (raw ∷ raws) =
      let t = trim raw in
      let blank = str_eq t "" in
      let held = is_seen t seen in
      is_seen_if x t (blank || held) (unique_from trim seen raws) (unique_from trim (t ∷ seen) raws)
      ∙ joins blank (str_eq x "") held (is_seen x seen) (str_eq t x) (is_seen x (map trim raws))
          (is_seen x (unique_from trim seen raws)) (is_seen x (unique_from trim (t ∷ seen) raws))
          (same_empty x t) (same_seen x t seen) (is_seen-unique_from x seen raws)
          (is_seen-unique_from x (t ∷ seen) raws)

  fresh :
      (seen tags : List String) (t : String) → is_seen t (unique_from trim (t ∷ seen) tags) ≡ false
  unfolding is_seen
  fresh seen tags t =
      let p = is_seen-unique_from t (t ∷ seen) tags in let q = eq_refl t in p ∙ (ground (arith, q))

  NoRepeats-unique_from : (seen tags : List String) → NoRepeats (unique_from trim seen tags)
  unfolding unique_from
  NoRepeats-unique_from seen [] = tt
  NoRepeats-unique_from seen (raw ∷ raws) =
      either (str_eq (trim raw) "" || is_seen (trim raw) seen) (unique_from trim seen raws)
        (trim raw ∷ unique_from trim (trim raw ∷ seen) raws) (NoRepeats-unique_from seen raws)
        (fresh seen raws (trim raw), NoRepeats-unique_from (trim raw ∷ seen) raws)
    where
      either :
          (b : Bool) (skipped kept : List String)
          → NoRepeats skipped
          → NoRepeats kept
          → NoRepeats (if b then skipped else kept)
      either true skipped kept h k = h
      either false skipped kept h k = k

is_seen_blank :
    (trim : String → String) (tags : List String) → is_seen "" (unique_tags trim tags) ≡ false
unfolding unique_tags
is_seen_blank trim tags =
    let p = is_seen-unique_from trim "" [] tags in p ∙ (ground (arith, eq_refl ""))

module _ (equal_fold : String → String → Bool) where
  abbrev is_corrections : String → Bool
  is_corrections t = equal_fold t "corrections" || equal_fold t "correction"

  same_corrections :
      (x t : String) → (is_corrections t && str_eq t x) ≡ (is_corrections x && str_eq t x)
  same_corrections x t = elim (Bool-cases (str_eq t x)) [
    | inl e ↦ ap (λ k. is_corrections k && str_eq t x) ((eq_iff t x).0 e)
    | inr e ↦ ground (arith, e)
  ]

  is_seen-strip :
      (x : String) (ts : List String)
      → is_seen x (strip_corrections_tag equal_fold ts) ≡ (is_seen x ts && not (is_corrections x))
  unfolding is_seen strip_corrections_tag
  is_seen-strip x [] = refl
  is_seen-strip x (t ∷ ts) =
      is_seen_if x t (is_corrections t) (strip_corrections_tag equal_fold ts)
        (strip_corrections_tag equal_fold ts)
      ∙ strip_joins (is_corrections t) (is_corrections x) (str_eq t x)
          (is_seen x (strip_corrections_tag equal_fold ts)) (is_seen x ts) (same_corrections x t)
          (is_seen-strip x ts)

  NoRepeats-strip :
      (ts : List String) → NoRepeats ts → NoRepeats (strip_corrections_tag equal_fold ts)
  unfolding strip_corrections_tag
  NoRepeats-strip [] h = tt
  NoRepeats-strip (t ∷ ts) h = elim (Bool-cases (is_corrections t)) [
    | inl e ↦ rw e (NoRepeats-strip ts h.1)
    | inr e ↦ rw e (is_seen-strip t ts ∙ (ground (arith, h.0)), NoRepeats-strip ts h.1)
  ]

  -- The request for an extracted memory has a tag exactly if the extractor gave it, white space
  -- aside, it is not empty, and it is not, in any case, the tag `corrections` or `correction`; and
  -- no tag occurs twice.
  pub build_extract_retain_request_tags :
      (trim : String → String) (mem : ExtractedMemory) (x : String)
      → let tags = (build_extract_retain_request equal_fold trim mem).tags in
        (is_seen x tags
          ≡ ((not (str_eq x "") && is_seen x (map trim mem.tags)) && not (is_corrections x)))
        × NoRepeats tags
  unfolding build_extract_retain_request unique_tags is_seen
  build_extract_retain_request_tags trim mem x =
      let p = is_seen-unique_from trim x [] mem.tags in
      (
        is_seen-strip x (unique_tags trim mem.tags) ∙ ap (◌&& not (is_corrections x)) p,
        NoRepeats-strip (unique_tags trim mem.tags) (NoRepeats-unique_from trim [] mem.tags),
      )
