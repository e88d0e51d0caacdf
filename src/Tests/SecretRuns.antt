-- ===== src/Tests/SecretRuns.antt =====
-- Runs of the buffer that holds a PIN.
use xdg_desktop_portal_certi.Base.{
  ◌≡◌, refl, ◌≤◌, ◌<◌, true, false, [], ◌∷◌, some, length, replicate, codes,
}
use xdg_desktop_portal_certi.Core.Secret.{Secret, set_length, secret_view, secret_length, has_zero}
use xdg_desktop_portal_certi.Core.Secret.View.{set_length-view}

abbrev typed : Secret
typed = record { memory = 49 ∷ 50 ∷ 51 ∷ 52 ∷ 99 ∷ 98 ∷ []; length_of = 0 }

abbrev sized : Secret
sized = record { memory = 49 ∷ 50 ∷ 51 ∷ 52 ∷ 0 ∷ 98 ∷ []; length_of = 4 }

accepted : set_length typed 4 ≡ (true, sized)
unfolding set_length has_zero
accepted = refl

-- A length that does not fit wipes the buffer.
refused : set_length typed 6 ≡ (false, record { memory = replicate 6 0; length_of = 0 })
unfolding set_length has_zero
refused = refl

set_length-view_example :
    (secret_view (some sized) ≡ some (codes "1234"))
    × (secret_length (some sized) ≡ 4)
    × (0 < 4)
    × (4 ≤ 511)
    × (length (codes "1234") ≡ 4)
    × (has_zero (codes "1234") ≡ false)
set_length-view_example = set_length-view typed sized 4 accepted
