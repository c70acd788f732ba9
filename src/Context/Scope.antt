-- ===== src/Context/Scope.antt =====
-- `handleRequest` of internal/context/manager.go: whose memories are recalled.
use mathlib.Core.Option.{some-injective}
use microagent.Prelude.{
  String, ◌≡◌, ◌≢◌, refl, sym, ap, ◌∙◌, true, false, ◌||◌, Option, none, some, ◌⊎◌, inl, inr, arith,
  Bool-cases, if◌then◌else◌,
}
use microagent.Prelude.Int.{ℤ}
use microagent.Prelude.Text.{str_eq, eq_iff}
use microagent.Context.{RecallRequest, MemoryConfig, is_named, recall_request}

-- The configurations that tie a recall to a speaker.
abbrev pub Scoped : MemoryConfig → Type 0
Scoped cfg =
    (cfg.recall_default_speaker_scope ≡ "explicit")
    ⊎ ((cfg.recall_default_speaker_scope ≡ "primary") × (cfg.primary_user_id ≢ ""))

abbrev asked : ℤ → String → String → RecallRequest
asked limit query id = record { query = query; limit = limit; speaker_id = id }

recall_explicit :
    (cfg : MemoryConfig) (limit : ℤ) (query speaker : String)
    → cfg.recall_default_speaker_scope ≡ "explicit"
    → recall_request cfg limit query speaker ≡ (
        if str_eq speaker "" || str_eq speaker "unknown"
        then none
        else some (asked limit query speaker))
unfolding recall_request
recall_explicit cfg limit query speaker e = rw e refl

recall_primary :
    (cfg : MemoryConfig) (limit : ℤ) (query speaker : String)
    → cfg.recall_default_speaker_scope ≡ "primary"
    → cfg.primary_user_id ≢ ""
    → recall_request cfg limit query speaker ≡ (
        if is_named speaker
        then some (asked limit query speaker)
        else some (asked limit query cfg.primary_user_id))
unfolding recall_request
recall_primary cfg limit query speaker e h =
    let q : str_eq cfg.primary_user_id "" ≡ false = ground (arith, eq_iff cfg.primary_user_id "") in
    rw (e, q) refl

explicit_primary : ◌≢◌ {A = String} "explicit" "primary"
explicit_primary = ground (arith, eq_iff "explicit" "primary")

named_cases :
    (speaker : String)
    → ((is_named speaker ≡ false) × ((str_eq speaker "" || str_eq speaker "unknown") ≡ true))
      ⊎ ((is_named speaker ≡ true)
          × ((str_eq speaker "" || str_eq speaker "unknown") ≡ false)
          × (speaker ≢ ""))
named_cases speaker = elim (Bool-cases (str_eq speaker "")) [
  | inl e ↦ inl (rw e refl, rw e refl)
  | inr e ↦ elim (Bool-cases (str_eq speaker "unknown")) [
    | inl u ↦ inl (rw (e, u) refl, rw (e, u) refl)
    | inr u ↦ inr (rw (e, u) refl, rw (e, u) refl, ground (arith, eq_iff speaker ""))
  ]
]

-- Which speaker a recall that is known names.
names :
    {limit : ℤ} {query id : String} {o : Option RecallRequest}
    → o ≡ some (asked limit query id)
    → (r : RecallRequest) → o ≡ some r
    → r.speaker_id ≡ id
names {limit} {query} {id} e r k =
    ap (λ (x : RecallRequest). x.speaker_id) (some-injective r (asked limit query id) (sym k ∙ e))

-- Under the scope "explicit", or "primary" with a primary user, every recall names a speaker, and
-- it is the speaker of the request if that is named, so neither empty nor "unknown"; under
-- "explicit" there is no recall for a request without a named speaker.
pub recall_request-Scoped :
    (cfg : MemoryConfig) (limit : ℤ) (query speaker : String)
    → Scoped cfg
    → ((r : RecallRequest)
        → recall_request cfg limit query speaker ≡ some r
        → (r.speaker_id ≢ "") × (is_named speaker ≡ true → r.speaker_id ≡ speaker))
      × (cfg.recall_default_speaker_scope ≡ "explicit"
          → is_named speaker ≡ false
          → recall_request cfg limit query speaker ≡ none)
recall_request-Scoped cfg limit query speaker (inl e) =
    let eq = recall_explicit cfg limit query speaker e in
    elim (named_cases speaker) [
      | inl (unnamed, t) ↦
          let nothing : recall_request cfg limit query speaker ≡ none = eq ∙ rw t refl in
          ((λ r k. absurd (cc)), (λ _ _. nothing))
      | inr (named, f, ne) ↦
          let ask : recall_request cfg limit query speaker ≡ some (asked limit query speaker) =
            eq ∙ rw f refl in
          (
            (λ r k. let s = names ask r k in ((λ z. ne (sym s ∙ z)), (λ _. s))),
            (λ _ u. absurd (cc)),
          )
    ]
recall_request-Scoped cfg limit query speaker (inr (e, user)) =
    let eq = recall_primary cfg limit query speaker e user in
    let other : cfg.recall_default_speaker_scope ≢ "explicit" = λ x. explicit_primary (sym x ∙ e) in
    elim (named_cases speaker) [
      | inl (unnamed, t) ↦
          let ask : recall_request cfg limit query speaker
              ≡ some (asked limit query cfg.primary_user_id) =
            eq ∙ rw unnamed refl in
          (
            (λ r k. let s = names ask r k in ((λ z. user (sym s ∙ z)), (λ y. absurd (cc)))),
            (λ x _. absurd (other x)),
          )
      | inr (named, f, ne) ↦
          let ask : recall_request cfg limit query speaker ≡ some (asked limit query speaker) =
            eq ∙ rw named refl in
          (
            (λ r k. let s = names ask r k in ((λ z. ne (sym s ∙ z)), (λ _. s))),
            (λ x _. absurd (other x)),
          )
    ]
