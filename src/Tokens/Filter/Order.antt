-- ===== src/Tokens/Filter/Order.antt =====
-- The order of what a filter lets through.
use xdg_desktop_portal_certi.Base.{
  ℕ, ◌≡◌, Bool, true, not, ◌&&◌, ◌||◌, inl, inr, Bool-cases, List, [], ◌∷◌, ◌++◌, append-nil,
  append_assoc, All, All-append, arith, if◌then◌else◌,
}
use xdg_desktop_portal_certi.Glib.{AsciiCase}
use xdg_desktop_portal_certi.Tokens.Filter.{
  Candidate, Filter, filter_matches, filter_apply, apply_loop, is_expired, is_not_yet_valid,
}

-- The elements that pass a test, in their order.
unfoldable pub select {ℓ} : {A : Type ℓ} → (A → Bool) → List A → List A
select p [] = []
select p (x ∷ xs) = if p x then x ∷ select p xs else select p xs

pub select-All {ℓ κ} :
    {A : Type ℓ} (p : A → Bool) (P : A → Type κ)
    → ((x : A) → p x ≡ true → P x)
    → (xs : List A) → All P (select p xs)
unfolding select
select-All p P f [] = tt
select-All p P f (x ∷ xs) = elim (Bool-cases (p x)) [
  | inl e ↦ rw e (f x e, select-All p P f xs)
  | inr e ↦ rw e (select-All p P f xs)
]

abbrev pub is_current : Candidate → ℕ → Bool
is_current c now = not (is_expired c now || is_not_yet_valid c now)

module _ (ascii : AsciiCase) (f : Filter) (now : ℕ) where
  abbrev current : Candidate → Bool
  current c = filter_matches ascii c f && is_current c now

  abbrev late : Candidate → Bool
  late c = filter_matches ascii c f && not (is_current c now)

  apply_loop-select :
      (cs usable unusable : List Candidate)
      → apply_loop ascii f now cs usable unusable
        ≡ (usable ++ select current cs) ++ (unusable ++ select late cs)
  unfolding apply_loop select
  apply_loop-select [] usable unusable = rw (append-nil usable, append-nil unusable)
  apply_loop-select (c ∷ cs) usable unusable = ground (
    arith,
    apply_loop-select cs usable unusable,
    apply_loop-select cs (usable ++ c ∷ []) unusable,
    apply_loop-select cs usable (unusable ++ c ∷ []),
    append_assoc usable (c ∷ []) (select current cs),
    append_assoc unusable (c ∷ []) (select late cs),
  )

  -- What is offered is what the filter matches and is valid at that time, in the order of discovery,
  -- and behind it what the filter matches and has expired or is not valid yet, in that order too.
  pub filter_apply-select :
      (cs : List Candidate)
      → filter_apply ascii now cs f
        ≡ select (λ c. filter_matches ascii c f && is_current c now) cs
          ++ select (λ c. filter_matches ascii c f && not (is_current c now)) cs
  unfolding filter_apply
  filter_apply-select cs = apply_loop-select cs [] []

  abbrev Matches : Candidate → Type 0
  Matches c = filter_matches ascii c f ≡ true

  -- Each offered candidate passes the whole filter.
  pub filter_apply-All :
      (cs : List Candidate)
      → All (λ c. filter_matches ascii c f ≡ true) (filter_apply ascii now cs f)
  filter_apply-All cs = rw (filter_apply-select cs) (
      All-append Matches (select current cs) (select late cs)
        (select-All current Matches (λ c h. ground arith) cs)
        (select-All late Matches (λ c h. ground arith) cs))
