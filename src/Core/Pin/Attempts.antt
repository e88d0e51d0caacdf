-- ===== src/Core/Pin/Attempts.antt =====
-- How many logins one prompt may start.
use xdg_desktop_portal_certi.Base.{
  ℕ, zero, suc, ◌≤◌, ◌≡◌, refl, subst, ◌⊎◌, inl, inr, true, false, not, ◌&&◌, ◌||◌, List, [], ◌∷◌,
  Option, none, some, ◌==◌, ==_refl, ltb, arith, Bool-cases, if-cases,
}
use xdg_desktop_portal_certi.Core.Pin.{Outcome, cancelled, locked, Prompt, World, closed, put, emit}
use xdg_desktop_portal_certi.Core.Pin.Queue.{
  is_active, is_ok, finish, defer, release, conclude, answer_with, show_with, start_with,
  start_head,
}

-- At most three attempts, and a login only for the active prompt, behind its refresh.
abbrev pub Weak : Option ℕ → ℕ → Prompt → Type 0
Weak active i p =
    (p.attempts ≤ 3)
    × ((p.login_in_flight ≡ false)
        ⊎ ((active ≡ some i) × (p.refresh_in_flight ≡ false) × (p.ui_context ≡ false)))

-- After three attempts a prompt has finished or waits for the third one.
abbrev pub Counted : Prompt → Type 0
Counted p = (p.finished || (p.login_in_flight || ltb p.attempts 3)) ≡ true

abbrev pub IsBounded : World → Type 0
IsBounded w = (j : ℕ) → Weak w.active j (w.prompts j) × Counted (w.prompts j)

-- What holds of every prompt but one.
abbrev pub Others : World → ℕ → Type 0
Others w i = (j : ℕ) → (j == i) ≡ false → Weak w.active j (w.prompts j) × Counted (w.prompts j)

pub put-IsBounded :
    (w : World) (i : ℕ) (p : Prompt)
    → Others w i
    → Weak w.active i p
    → Counted p
    → IsBounded (put w i p)
put-IsBounded w i p others weak counted j = elim (Bool-cases (j == i)) [
  | inl e ↦
      let same : i ≡ j = ground arith in
      rw e (subst (λ k. Weak w.active k p × Counted p) same (weak, counted))
  | inr e ↦ rw e (others j e)
]

is_active-eq : (a : Option ℕ) (i : ℕ) → is_active a i ≡ true → a ≡ some i
is_active-eq none i h = absurd (ground arith)
is_active-eq (some j) i h = ground arith

-- No login is in flight beside that of the active prompt, so none is once its turn is over.
released :
    (w : World) (i : ℕ)
    → IsBounded w
    → w.active ≡ some i
    → (w.prompts i).login_in_flight ≡ false
    → (j : ℕ) → (w.prompts j).login_in_flight ≡ false
released w i bounded turn idle j = elim ((bounded j).0.1) [
  | inl e ↦ e
  | inr (turn', _, _) ↦
      let same : i ≡ j = ground (arith, turn, turn') in
      subst (λ k. (w.prompts k).login_in_flight ≡ false) same idle
]

whole :
    (w : World) (i : ℕ)
    → Others w i
    → Weak w.active i (w.prompts i)
    → Counted (w.prompts i)
    → IsBounded w
whole w i others weak counted j = elim (Bool-cases (j == i)) [
  | inl e ↦
      let same : i ≡ j = ground arith in
      subst (λ k. Weak w.active k (w.prompts k) × Counted (w.prompts k)) same (weak, counted)
  | inr e ↦ others j e
]

defer-IsBounded : (w : World) (i : ℕ) (o : Outcome) → IsBounded w → IsBounded (defer w i o)
defer-IsBounded w i o bounded =
    let p = w.prompts i in
    let q = record p { cancel_deferred = true; deferred_outcome = o } in
    let kept = put-IsBounded w i q (λ j _. bounded j) (bounded i).0 (bounded i).1 in
    if-cases IsBounded p.cancel_deferred (λ _. bounded)
      (λ _. if-cases IsBounded (not p.refresh_in_flight) (λ _. kept) (λ _. kept))

module _ (next : World → World)
    (keeps : (w : World) → IsBounded w → w.active ≡ none → IsBounded (next w)) where
  release-IsBounded :
      (w : World) (i : ℕ)
      → IsBounded w
      → (w.prompts i).login_in_flight ≡ false
      → IsBounded (release next w i)
  unfolding release
  release-IsBounded w i bounded idle =
      if-cases IsBounded (is_active w.active i)
        (λ e.
          let none_left = released w i bounded (is_active-eq w.active i e) idle in
          keeps (record w { active = none })
            (λ j. (((bounded j).0.0, inl (none_left j)), (bounded j).1)) refl)
        (λ _. bounded)

  conclude-IsBounded :
      (w : World) (i : ℕ) (o : Outcome)
      → Others w i
      → (w.prompts i).attempts ≤ 3
      → (w.prompts i).login_in_flight ≡ false
      → IsBounded (conclude next w i o)
  conclude-IsBounded w i o others few idle =
      let p = w.prompts i in
      let w1 = emit (put w i (finish p)) (closed i) in
      let bounded = put-IsBounded w i (finish p) others (few, inl idle) refl in
      let left = release-IsBounded w1 i bounded (rw (==_refl i) idle) in
      if-cases IsBounded (p.login_succeeded && (not (is_ok o) && p.has_abandon)) (λ _. left)
        (λ _. left)

  pub answer_with-IsBounded :
      (w : World) (i : ℕ) (o : Outcome)
      → Others w i
      → Weak w.active i (w.prompts i)
      → Counted (w.prompts i)
        ⊎ (((w.prompts i).ui_context ≡ false) × ((w.prompts i).refresh_in_flight ≡ false))
      → IsBounded (answer_with next w i o)
  unfolding answer_with
  answer_with-IsBounded w i o others weak ready =
      let p = w.prompts i in
      if-cases IsBounded p.ui_context
        (λ u.
          let counted : Counted p = ground arith in
          let same = whole w i others weak counted in
          if-cases IsBounded p.finished (λ _. same) (λ _. same))
        (λ u.
          if-cases IsBounded p.finished (λ e. whole w i others weak (ground arith))
            (λ e.
              if-cases IsBounded (p.refresh_in_flight || p.login_in_flight)
                (λ busy. defer-IsBounded w i o (whole w i others weak (ground arith)))
                (λ free. conclude-IsBounded w i o others weak.0 (ground arith))))

  pub show_with-IsBounded : (w : World) (i : ℕ) → IsBounded w → IsBounded (show_with next w i)
  unfolding show_with
  show_with-IsBounded w i bounded =
      if-cases IsBounded (w.tokens (w.prompts i).token).pin_locked
        (λ _. answer_with-IsBounded w i locked (λ j _. bounded j) (bounded i).0 (inl (bounded i).1))
        (λ _. bounded)

  pub start_with-IsBounded :
      (w : World) (i : ℕ)
      → IsBounded w
      → ((j : ℕ) → (w.prompts j).login_in_flight ≡ false)
      → IsBounded (start_with next w i)
  unfolding start_with
  start_with-IsBounded w i bounded idle =
      let p = w.prompts i in
      let w1 = record w { active = some i } in
      let bounded1 : IsBounded w1 = λ j. (((bounded j).0.0, inl (idle j)), (bounded j).1) in
      if-cases IsBounded p.is_cancelled
        (λ _.
          answer_with-IsBounded w1 i cancelled (λ j _. bounded1 j) (bounded1 i).0
            (inl (bounded1 i).1))
        (λ _.
          if-cases IsBounded (not p.has_refresh) (λ _. show_with-IsBounded w1 i bounded1)
            (λ _.
              put-IsBounded w1 i (record p { refresh_in_flight = true }) (λ j _. bounded1 j)
                ((bounded i).0.0, inl (idle i)) (bounded i).1))

-- Without an active prompt no login is in flight.
pub no_login :
    (w : World) → IsBounded w → w.active ≡ none → (j : ℕ) → (w.prompts j).login_in_flight ≡ false
no_login w bounded turn j = elim ((bounded j).0.1) [
  | inl e ↦ e
  | inr (turn', _, _) ↦ absurd (ground (arith, turn, turn'))
]

pub start_head-IsBounded :
    (n : ℕ) (w : World) → IsBounded w → w.active ≡ none → IsBounded (start_head n w)
unfolding start_head
start_head-IsBounded zero w bounded turn = bounded
start_head-IsBounded (suc n) w bounded turn = go (start_head-IsBounded n) w.queue refl
  where
    go :
        ((v : World) → IsBounded v → v.active ≡ none → IsBounded (start_head n v))
        → (q : List ℕ) → w.queue ≡ q
        → IsBounded (start_head (suc n) w)
    go rest [] e = rw (start_head, e) bounded
    go rest (i ∷ q) e =
        rw (start_head, e)
          (start_with-IsBounded (start_head n) rest (record w { queue = q }) i bounded
            (no_login w bounded turn))
