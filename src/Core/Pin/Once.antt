-- ===== src/Core/Pin/Once.antt =====
-- How often a prompt's `done` is called.
use xdg_desktop_portal_certi.Base.{
  ℕ, zero, suc, ◌+◌, ◌≡◌, refl, ◌∙◌, ap, inl, inr, Bool, true, false, not, ◌||◌, List, [], ◌∷◌,
  none, some, ◌==◌, if◌then◌else◌, arith, Bool-cases, if-cases,
}
use xdg_desktop_portal_certi.Core.Pin.{
  Outcome, pin_ok, incorrect, locked, cancelled, device_error, token_removed, no_display, timed_out,
  Prompt, World, Event, done, abandoned, closed, put, emit,
}
use xdg_desktop_portal_certi.Core.Pin.Queue.{
  context_event, finish, defer, release, conclude, answer_with, show_with, start_with, start_head,
}

-- How many calls of the prompt's `done` there are.
unfoldable pub times : ℕ → List Event → ℕ
times i [] = 0
times i (done j outcome ∷ es) = (if j == i then 1 else 0) + times i es
times i (e ∷ es) = times i es

-- The calls of `done` so far, and one more if the prompt is still to finish.
unfoldable pub credit : World → ℕ → ℕ
credit w i = times i w.events + (if (w.prompts i).finished then 0 else 1)

pub credit-put :
    (w : World) (i : ℕ) (p : Prompt)
    → p.finished ≡ (w.prompts i).finished
    → (j : ℕ) → credit (put w i p) j ≡ credit w j
unfolding credit
credit-put w i p h j = elim (Bool-cases (j == i)) [
  | inl e ↦ let same : j ≡ i = ground arith in rw (same) (ground arith)
  | inr e ↦ ground arith
]

context_event-times :
    (o : Outcome) (i j : ℕ) (es : List Event) → times j (context_event o i ∷ es) ≡ times j es
unfolding times
context_event-times pin_ok i j es = refl
context_event-times incorrect i j es = refl
context_event-times locked i j es = refl
context_event-times cancelled i j es = refl
context_event-times device_error i j es = refl
context_event-times token_removed i j es = refl
context_event-times no_display i j es = refl
context_event-times timed_out i j es = refl

emit-done :
    (w : World) (i : ℕ) (o : Outcome) (j : ℕ)
    → credit (emit w (done i o)) j ≡ (if i == j then 1 else 0) + credit w j
unfolding credit times
emit-done w i o j = omega arith

emit-abandoned :
    (b : Bool) (w : World) (i j : ℕ) → credit (if b then emit w (abandoned i) else w) j ≡ credit w j
unfolding credit times
emit-abandoned true w i j = refl
emit-abandoned false w i j = refl

finish-credit :
    (w : World) (i : ℕ)
    → (w.prompts i).finished ≡ false
    → (j : ℕ)
    → (if i == j then 1 else 0) + credit (emit (put w i (finish (w.prompts i))) (closed i)) j
      ≡ credit w j
unfolding credit times
finish-credit w i h j = elim (Bool-cases (j == i)) [
  | inl e ↦ let same : j ≡ i = ground arith in rw (same, h) (ground arith)
  | inr e ↦ ground arith
]

-- The conditional `if b then x else y` owes what `w` owes, if both of its branches do.
pub if-credit :
    (w : World) (j : ℕ) (b : Bool) (x y : World)
    → (b ≡ true → credit x j ≡ credit w j)
    → (b ≡ false → credit y j ≡ credit w j)
    → credit (if b then x else y) j ≡ credit w j
if-credit w j b x y = if-cases (λ v. credit v j ≡ credit w j) b

defer-credit : (w : World) (i : ℕ) (o : Outcome) (j : ℕ) → credit (defer w i o) j ≡ credit w j
unfolding credit times
defer-credit w i o j =
    let p = w.prompts i in
    let kept = credit-put w i (record p { cancel_deferred = true; deferred_outcome = o }) refl j in
    if-credit w j p.cancel_deferred _ _ (λ _. refl)
      (λ _. if-credit w j (not p.refresh_in_flight) _ _ (λ _. kept) (λ _. kept))

module _ (next : World → World) (keeps : (w : World) (j : ℕ) → credit (next w) j ≡ credit w j) where
  release-credit : (w : World) (i j : ℕ) → credit (release next w i) j ≡ credit w j
  unfolding release credit
  release-credit w i j = ground (arith, keeps (record w { active = none }) j)

  conclude-credit :
      (w : World) (i : ℕ) (o : Outcome)
      → (w.prompts i).finished ≡ false
      → (j : ℕ) → credit (conclude next w i o) j ≡ credit w j
  conclude-credit w i o h j =
      let w1 = emit (put w i (finish (w.prompts i))) (closed i) in
      emit-abandoned _ (emit (release next w1 i) (done i o)) i j
      ∙ emit-done (release next w1 i) i o j
      ∙ ap (λ c. (if i == j then 1 else 0) + c) (release-credit w1 i j)
      ∙ finish-credit w i h j

  context-credit :
      (w : World) (i : ℕ) (o : Outcome) (j : ℕ) → credit (emit w (context_event o i)) j ≡ credit w j
  unfolding credit
  context-credit w i o j = let e = context_event-times o i j w.events in omega (arith, e)

  pub answer_with-credit :
      (w : World) (i : ℕ) (o : Outcome) (j : ℕ) → credit (answer_with next w i o) j ≡ credit w j
  unfolding answer_with
  answer_with-credit w i o j =
      let p = w.prompts i in
      if-credit w j p.ui_context _ _
        (λ _. if-credit w j p.finished _ _ (λ _. refl) (λ _. context-credit w i o j))
        (λ _.
          if-credit w j p.finished _ _ (λ _. refl)
            (λ h.
              if-credit w j (p.refresh_in_flight || p.login_in_flight) _ _
                (λ _. defer-credit w i o j) (λ _. conclude-credit w i o h j)))

  pub show_with-credit : (w : World) (i j : ℕ) → credit (show_with next w i) j ≡ credit w j
  unfolding show_with credit times
  show_with-credit w i j =
      if-credit w j (w.tokens (w.prompts i).token).pin_locked _ _
        (λ _. answer_with-credit w i locked j) (λ _. refl)

  pub start_with-credit : (w : World) (i j : ℕ) → credit (start_with next w i) j ≡ credit w j
  unfolding start_with credit
  start_with-credit w i j =
      let p = w.prompts i in
      let w1 = record w { active = some i } in
      if-credit w j p.is_cancelled _ _ (λ _. answer_with-credit w1 i cancelled j)
        (λ _.
          if-credit w j (not p.has_refresh) _ _ (λ _. show_with-credit w1 i j)
            (λ _. credit-put w1 i (record p { refresh_in_flight = true }) refl j))

pub start_head-credit : (n : ℕ) (w : World) (j : ℕ) → credit (start_head n w) j ≡ credit w j
unfolding start_head credit
start_head-credit zero w j = refl
start_head-credit (suc n) w j = go (start_head-credit n) w.queue refl
  where
    go :
        ((v : World) (k : ℕ) → credit (start_head n v) k ≡ credit v k)
        → (q : List ℕ) → w.queue ≡ q
        → credit (start_head (suc n) w) j ≡ credit w j
    go rest [] e = rw (start_head, e) refl
    go rest (i ∷ q) e =
        rw (start_head, e) (start_with-credit (start_head n) rest (record w { queue = q }) i j)
