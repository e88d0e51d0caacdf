-- ===== src/Core/Pin/Turns.antt =====
-- The bound on the turns that one answer gives away: no larger one changes anything.
use xdg_desktop_portal_certi.Base.{
  ℕ, zero, suc, ◌≤◌, ◌≡◌, refl, sym, ap, List, [], ◌∷◌, none, some, length, arith,
}
use xdg_desktop_portal_certi.Core.Pin.{Outcome, cancelled, locked, World, put, emit, closed}
use xdg_desktop_portal_certi.Core.Pin.Queue.{
  finish, release, answer_with, show_with, start_with, start_head,
}

module _ (f g : World → World) where
  -- Both agree wherever the queue is no longer than that of `w`.
  answer_with-agree :
      (n : ℕ)
      → ((v : World) → length v.queue ≤ n → f v ≡ g v)
      → (w : World) (i : ℕ) (o : Outcome) → length w.queue ≤ n
      → answer_with f w i o ≡ answer_with g w i o
  unfolding answer_with release
  answer_with-agree n same w i o h =
      let w1 = emit (put w i (finish (w.prompts i))) (closed i) in
      let e = same (record w1 { active = none }) h in rw e refl

  show_with-agree :
      (n : ℕ)
      → ((v : World) → length v.queue ≤ n → f v ≡ g v)
      → (w : World) (i : ℕ) → length w.queue ≤ n
      → show_with f w i ≡ show_with g w i
  unfolding show_with
  show_with-agree n same w i h = rw (answer_with-agree n same w i locked h) refl

  start_with-agree :
      (n : ℕ)
      → ((v : World) → length v.queue ≤ n → f v ≡ g v)
      → (w : World) (i : ℕ) → length w.queue ≤ n
      → start_with f w i ≡ start_with g w i
  unfolding start_with
  start_with-agree n same w i h =
      let w1 = record w { active = some i } in
      rw (answer_with-agree n same w1 i cancelled h, show_with-agree n same w1 i h) refl

start_head_nil : (n : ℕ) (w : World) → length w.queue ≡ 0 → start_head (suc n) w ≡ w
unfolding start_head
start_head_nil n w h = go w.queue refl
  where
    go : (q : List ℕ) → w.queue ≡ q → start_head (suc n) w ≡ w
    go [] e = rw (start_head, e) (ap (λ q. record w { queue = q }) e)
    go (i ∷ q) e = absurd (omega (arith, ap length e))

-- An answer may give turns to one prompt after another, each of which may conclude at once: any bound
-- from the length of the queue on gives the same turns, so the chain of calls ends by itself and no
-- prompt is passed over.
pub start_head-agree :
    (n m : ℕ) (w : World)
    → length w.queue ≤ n
    → length w.queue ≤ m
    → start_head n w ≡ start_head m w
unfolding start_head
start_head-agree zero zero w hn hm = refl
start_head-agree zero (suc m) w hn hm = sym (start_head_nil m w (omega arith))
start_head-agree (suc n) zero w hn hm = start_head_nil n w (omega arith)
start_head-agree (suc n) (suc m) w hn hm = go (start_head-agree n m) w.queue refl
  where
    go :
        ((v : World) → length v.queue ≤ n → length v.queue ≤ m → start_head n v ≡ start_head m v)
        → (q : List ℕ) → w.queue ≡ q
        → start_head (suc n) w ≡ start_head (suc m) w
    go rest [] e = rw (start_head, e) refl
    go rest (i ∷ q) e =
        let long : length w.queue ≡ suc (length q) = ap length e in
        let agree =
          start_with-agree (start_head n) (start_head m) (length q)
            (λ v h. rest v (omega (arith, long, hn)) (omega (arith, long, hm)))
            (record w { queue = q }) i (omega arith) in
        rw (start_head, e) agree
