-- ===== src/Core/Secret/View.antt =====
-- What the worker sees of a PIN.
use xdg_desktop_portal_certi.Base.{
  ℕ, suc, ◌≤◌, ◌<◌, ◌≡◌, sym, ◌∙◌, ap, Bool, true, false, ◌||◌, ◌∷◌, some, ltb, leb, ◌==◌, arith,
  length, take, drop, length-take, take-length-append, Bytes, Bool-cases, inl, inr,
}
use xdg_desktop_portal_certi.Core.Secret.{
  Secret, max_length, has_zero, put_byte, set_length, secret_view, secret_length,
}

take-put_byte : (n b : ℕ) (m : Bytes) → n < length m → take n (put_byte n b m) ≡ take n m
take-put_byte n b m lt =
    let long : length (take n m) ≡ n = omega (arith, length-take n m) in
    ap (λ k. take k (put_byte n b m)) (sym long)
    ∙ take-length-append (take n m) (b ∷ drop (suc n) m)

view_of :
    (m : Bytes) (n : ℕ)
    → 0 < n
    → secret_view (some record { memory = m; length_of = n }) ≡ some (take n m)
unfolding secret_view
view_of m n pos = ground arith

-- A PIN whose length is accepted is what a worker sees of the buffer: between 1 and 511 bytes, just the
-- first bytes of the memory, none of which is the zero byte that ends the text.
pub set_length-view :
    (s t : Secret) (n : ℕ)
    → set_length s n ≡ (true, t)
    → (secret_view (some t) ≡ some (take n s.memory))
      × (secret_length (some t) ≡ n)
      × (0 < n)
      × (n ≤ 511)
      × (length (take n s.memory) ≡ n)
      × (has_zero (take n s.memory) ≡ false)
unfolding set_length secret_view secret_length
set_length-view s t n h =
    elim (Bool-cases
      (n == 0 || (ltb max_length n || (leb (length s.memory) n || has_zero (take n s.memory))))) [
        | inl e ↦ absurd (ground (arith, rw e at h))
        | inr e ↦
            let same : (true, record { memory = put_byte n 0 s.memory; length_of = n })
                ≡ (true, t) =
              rw e at h in
            let built : record { memory = put_byte n 0 s.memory; length_of = n } ≡ t =
              ap (λ (r : Bool × Secret). r.1) same in
            let seen = view_of (put_byte n 0 s.memory) n (ground (arith, e)) in
            let fits : n < length s.memory = ground (arith, e) in
            (
              ap (λ (r : Secret). secret_view (some r)) (sym built)
                  ∙ seen
                  ∙ ap some (take-put_byte n 0 s.memory fits),
              ap (λ (r : Secret). r.length_of) (sym built),
              ground (arith, e),
              ground (arith, e),
              omega (arith, length-take n s.memory),
              ground (arith, e),
            )
      ]
