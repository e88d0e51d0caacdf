-- ===== src/Module/Cryptoki/Invariant/Perform.antt =====
-- Feeding a signature and asking for it keep the state sound, and read through no NULL pointer.
use xdg_desktop_portal_certi.Base.{
  ℕ, ◌-◌, ◌≤◌, ◌≡◌, ◌⊎◌, inl, inr, refl, sym, ap, subst, Bool, true, false, ◌||◌, Option, none,
  some, [], ◌∷◌, ◌++◌, length, take, length-append, Bool-cases, Bytes, ltb, arith,
}
use xdg_desktop_portal_certi.Ck.{GnutlsDigest}
use xdg_desktop_portal_certi.Module.Grant.{Grant, Gnutls}
use xdg_desktop_portal_certi.Module.Mechanism.{
  PortalMechanism, hash_length, hash_for_length, digestinfo_parse,
}
use xdg_desktop_portal_certi.Module.Rv.{Rv}
use xdg_desktop_portal_certi.Module.Cryptoki.{
  PortalSession, Client, Cryptoki, operation_session_lookup,
}
use xdg_desktop_portal_certi.Module.Cryptoki.Sign.{feed_buffer, feed_input, sign_feed}
use xdg_desktop_portal_certi.Module.Cryptoki.Perform.{
  Service, Answer, gives, fails, operation, sign_wire, Input, digest_of, bad_input, null_input,
  named_input, info_input, inferred_input, buffer_input, hashed_input, sign_input, finish_answer,
  request_in, with_client, sign_perform, sign_finish, after_feed, sign_in, c_sign, update_fed,
  update_in, c_sign_update, final_in, c_sign_final, Looked,
}
use xdg_desktop_portal_certi.Module.Cryptoki.Invariant.{
  IsKnown, IsHashing, IsBuffering, IsSigning, Signing, IsSound, Inv, Safe, FoundRv,
  reset_sign-IsSound, with_session-Inv, operation_session_lookup-Found,
}

-- A feed gives a session that is sound and still signs.
abbrev Fed : Option Grant → Option (Rv × PortalSession) → Type 0
Fed grant none = ⊥
Fed grant (some (rv, x)) = IsSound grant x × (x.sign_active ≡ true)

-- A session with another input of the same kind.
fed_session :
    (grant : Option Grant) (x : PortalSession) (digest : Option (GnutlsDigest × Bytes))
    (buffer : Option Bytes)
    → IsSound grant x
    → x.sign_active ≡ true
    → IsSigning grant x.sign_mechanism x.sign_hash digest buffer
    → IsSound grant (record x { sign_digest = digest; sign_buffer = buffer })
fed_session grant x digest buffer sound active signs = record {
  signing = λ _. signs;
  not_signing = λ h. absurd (ground (arith));
  decrypting = sound.decrypting;
  not_decrypting = sound.not_decrypting;
  finding = sound.finding;
}

module _ (grant : Option Grant) (x : PortalSession) (sound : IsSound grant x)
    (active : x.sign_active ≡ true) where
  with_input :
      (digest : Option (GnutlsDigest × Bytes)) (buffer : Option Bytes)
      → let s = sound.signing active in
        ((s.row.hash_locally ≡ true) × IsHashing s.row x.sign_hash digest)
          ⊎ ((s.row.hash_locally ≡ false) × IsBuffering s.row x.sign_hash digest buffer)
        → IsSigning grant x.sign_mechanism x.sign_hash digest buffer
  with_input digest buffer input =
      let s = sound.signing active in
      record {
        granted = s.granted;
        has_grant = s.has_grant;
        is_allowed = s.is_allowed;
        row = s.row;
        has_row = s.has_row;
        can_sign = s.can_sign;
        is_available = s.is_available;
        input = input;
      }

  feed_buffer-Fed :
      (new : Bytes) (t : Option Bytes)
      → x.sign_buffer ≡ t
      → x.sign_digest ≡ none
      → Fed grant (feed_buffer x new t)
  feed_buffer-Fed new none e d = elim (sound.signing active).input [
    | inl (_, i) ↦ absurd (ground (arith, d, i.is_running))
    | inr (_, i) ↦ absurd (ground (arith, e, i.is_buffer))
  ]
  feed_buffer-Fed new (some buffer) e d = elim (sound.signing active).input [
    | inl (_, i) ↦ absurd (ground (arith, d, i.is_running))
    | inr (remote, i) ↦
        elim (Bool-cases (ltb 512 (length buffer) || ltb (512 - length buffer) (length new))) [
          | inl long ↦ ground (arith, long, sound, active)
          | inr short ↦
              let bounded : length (buffer ++ new) ≤ 512 =
                ground (arith, short, length-append buffer new) in
              let fed = fed_session grant x x.sign_digest (some (buffer ++ new)) sound active (
                with_input x.sign_digest (some (buffer ++ new)) (
                  inr (
                    remote,
                    record {
                      no_digest = d;
                      buffer = buffer ++ new;
                      is_buffer = refl;
                      is_bounded = bounded;
                      hash = i.hash;
                    },
                  ))) in
              ground (arith, short, fed, active)
        ]
  ]

  feed_input-Fed :
      (lib : Gnutls) (new : Bytes) (t : Option (GnutlsDigest × Bytes))
      → x.sign_digest ≡ t
      → Fed grant (feed_input lib x new t)
  feed_input-Fed lib new none e = feed_buffer-Fed new x.sign_buffer refl e
  feed_input-Fed lib new (some (digest, fed)) e = elim (sound.signing active).input [
    | inr (_, i) ↦ absurd (ground (arith, e, i.no_digest))
    | inl (local, i) ↦
        let same : digest ≡ i.hash.entry.gnutls_digest = ground (arith, e, i.is_running) in
        let more = some (digest, fed ++ new) in
        let taken = fed_session grant x more x.sign_buffer sound active (
          with_input more x.sign_buffer (
            inl (
              local,
              record {
                hash = i.hash;
                same_hash = i.same_hash;
                fed = fed ++ new;
                is_running = ap (λ d. some (d, fed ++ new)) same;
              },
            ))) in
        ground (arith, taken, sound, active)
  ]

  sign_feed-Fed :
      (lib : Gnutls) (memory : Option Bytes) (size : ℕ) → Fed grant (sign_feed lib x memory size)
  unfolding sign_feed
  sign_feed-Fed lib none size = (sound, active)
  sign_feed-Fed lib (some []) size = (sound, active)
  sign_feed-Fed lib (some (b ∷ bs)) size = feed_input-Fed lib (b ∷ bs) x.sign_digest refl

-- A request that has its hash and its input, or a code.
abbrev NotNull : Input → Type 0
NotNull null_input = ⊥
NotNull (bad_input rv) = Unit {0}
NotNull (digest_of hash input) = Unit {0}

named_input-NotNull :
    (hash : Option Bytes) (input : Bytes) → IsKnown hash → NotNull (named_input hash input)
named_input-NotNull none input k = absurd (ground (arith, k.is_named))
named_input-NotNull (some hash) input k = tt

info_input-NotNull :
    (buffer : Bytes) (o : Option (Bytes × Bytes × ℕ)) → NotNull (info_input buffer o)
info_input-NotNull buffer none = tt
info_input-NotNull buffer (some (hash, digest, size)) = tt

inferred_input-NotNull : (buffer : Bytes) (o : Option Bytes) → NotNull (inferred_input buffer o)
inferred_input-NotNull buffer none = tt
inferred_input-NotNull buffer (some hash) = tt

buffer_input-NotNull :
    (row : PortalMechanism) (hash : Option Bytes) (buffer : Bytes)
    → (row.digest_info ≡ true) ⊎ ((row.infer_hash ≡ true) ⊎ IsKnown hash)
    → NotNull (buffer_input row hash (some buffer))
buffer_input-NotNull row hash buffer (inl i) =
    ground (arith, i, info_input-NotNull buffer (digestinfo_parse buffer))
buffer_input-NotNull row hash buffer (inr (inl i)) = ground (
  arith,
  i,
  info_input-NotNull buffer (digestinfo_parse buffer),
  inferred_input-NotNull buffer (hash_for_length (length buffer)),
)
buffer_input-NotNull row hash buffer (inr (inr k)) = ground (
  arith,
  info_input-NotNull buffer (digestinfo_parse buffer),
  inferred_input-NotNull buffer (hash_for_length (length buffer)),
  named_input-NotNull hash buffer k,
)

-- What a session that signs asks with.
sign_input-NotNull :
    (lib : Gnutls) (row : PortalMechanism) (x : PortalSession)
    → ((row.hash_locally ≡ true) × IsHashing row x.sign_hash x.sign_digest)
      ⊎ ((row.hash_locally ≡ false) × IsBuffering row x.sign_hash x.sign_digest x.sign_buffer)
    → NotNull (sign_input lib row x)
unfolding sign_input
sign_input-NotNull lib row x (inl (local, i)) =
    let known : IsKnown x.sign_hash = subst IsKnown (sym i.same_hash) i.hash in
    let out = take (hash_length row.hash_name) (lib.hash_output i.hash.entry.gnutls_digest i.fed) in
    let h : NotNull (hashed_input lib row x.sign_hash x.sign_digest) =
      subst (λ d. NotNull (hashed_input lib row x.sign_hash d)) (sym i.is_running)
        (named_input-NotNull x.sign_hash out known) in
    ground (arith, local, h)
sign_input-NotNull lib row x (inr (remote, i)) =
    let h : NotNull (buffer_input row x.sign_hash x.sign_buffer) =
      subst (λ b. NotNull (buffer_input row x.sign_hash b)) (sym i.is_buffer)
        (buffer_input-NotNull row x.sign_hash i.buffer i.hash) in
    ground (arith, remote, h)

pub with_client-Inv : (c : Option Client) (s : Cryptoki) → Inv s → Inv (with_client c s)
with_client-Inv c s inv = record { sound = inv.sound; objects = inv.objects }

module _ (service : Service) (row : PortalMechanism) (x : PortalSession) (room : ℕ) (s : Cryptoki)
    (inv : Inv s) (sound : IsSound s.grant x) where
  finish_answer-Safe : (a : Answer) → Safe (finish_answer x room s a)
  finish_answer-Safe (fails e client) =
      with_session-Inv _ (with_client client s) (reset_sign-IsSound s.grant x sound)
        (with_client-Inv client s inv)
  finish_answer-Safe (gives bytes client) = ground (
    arith,
    with_session-Inv _ (with_client client s) (reset_sign-IsSound s.grant x sound)
        (with_client-Inv client s inv),
  )

  request_in-Safe :
      (grant : Grant) (i : Input) → NotNull i → Safe (request_in service row x room s grant i)
  request_in-Safe grant null_input n = n
  request_in-Safe grant (bad_input rv) n =
      with_session-Inv _ s (reset_sign-IsSound s.grant x sound) inv
  request_in-Safe grant (digest_of hash input) n =
      finish_answer-Safe
        (operation service s.client grant (sign_wire grant row.portal_mechanism hash x input))

module _ (lib : Gnutls) (service : Service) (room : ℕ) (s : Cryptoki) (inv : Inv s) where
  sign_perform-Safe :
      (x : PortalSession)
      → IsSound s.grant x
      → Signing s.grant x
      → Safe (sign_perform lib service x room s s.grant x.sign_mechanism)
  unfolding sign_perform
  sign_perform-Safe x sound signs =
      subst (λ g. Safe (sign_perform lib service x room s g x.sign_mechanism)) (sym signs.has_grant)
        (subst (λ m. Safe (sign_perform lib service x room s (some signs.granted) m))
          (sym signs.has_row)
          (request_in-Safe service signs.row x room s inv sound signs.granted _
            (sign_input-NotNull lib signs.row x signs.input)))

  sign_finish-Safe :
      (x : PortalSession) (has_out : Bool)
      → IsSound s.grant x
      → x.sign_active ≡ true
      → Safe (sign_finish lib service x has_out room s)
  unfolding sign_finish
  sign_finish-Safe x has_out sound active =
      ground
        (arith, with_session-Inv x s sound inv, sign_perform-Safe x sound (sound.signing active))

  after_feed-Safe :
      (x : PortalSession) (r : Option (Rv × PortalSession))
      → IsSound s.grant x
      → Fed s.grant r
      → Safe (after_feed lib service x room s r)
  after_feed-Safe x none sound f = f
  after_feed-Safe x (some (rv, x')) sound (sound', active) = ground (
    arith,
    sign_finish-Safe x' true sound' active,
    with_session-Inv _ s (reset_sign-IsSound s.grant x' sound') inv,
  )

module _ (lib : Gnutls) (service : Service) (memory : Option Bytes) (size : ℕ) (has_out : Bool)
    (room : ℕ) where
  sign_in-Safe : (r : Looked) → FoundRv r → Safe (sign_in lib service memory size has_out room r)
  sign_in-Safe (rv, none, s) f = f
  sign_in-Safe (rv, some x, s) (inv, sound) = elim (Bool-cases x.sign_active) [
    | inr e ↦ ground (arith, e, inv)
    | inl e ↦ ground (
      arith,
      e,
      inv,
      after_feed-Safe lib service room s inv x (sign_feed lib x memory size) sound
          (sign_feed-Fed s.grant x sound e lib memory size),
    )
  ]

  final_in-Safe : (r : Looked) → FoundRv r → Safe (final_in lib service has_out room r)
  final_in-Safe (rv, none, s) f = f
  final_in-Safe (rv, some x, s) (inv, sound) = elim (Bool-cases x.sign_active) [
    | inr e ↦ ground (arith, e, inv)
    | inl e ↦ ground (arith, e, sign_finish-Safe lib service room s inv x has_out sound e)
  ]

pub c_sign-Safe :
    (checked : Bool) (lib : Gnutls) (service : Service) (now handle : ℕ) (memory : Option Bytes)
    (size : ℕ) (has_out : Bool) (room : Option ℕ) (s : Cryptoki)
    → Inv s
    → Safe (c_sign checked lib service now handle memory size has_out room s)
unfolding c_sign
c_sign-Safe checked lib service now handle memory size has_out none s inv = ground (arith, inv)
c_sign-Safe checked lib service now handle memory size has_out (some room) s inv = ground (
  arith,
  inv,
  sign_in-Safe lib service memory size has_out room (operation_session_lookup now s handle)
      (operation_session_lookup-Found now s handle inv),
)

update_fed-Safe :
    (s : Cryptoki) (r : Option (Rv × PortalSession)) → Inv s → Fed s.grant r → Safe (update_fed s r)
update_fed-Safe s none inv f = f
update_fed-Safe s (some (rv, x)) inv (sound, active) = ground (
  arith,
  with_session-Inv x s sound inv,
  with_session-Inv _ s (reset_sign-IsSound s.grant x sound) inv,
)

update_in-Safe :
    (lib : Gnutls) (memory : Option Bytes) (size : ℕ) (r : Looked)
    → FoundRv r
    → Safe (update_in lib memory size r)
update_in-Safe lib memory size (rv, none, s) f = f
update_in-Safe lib memory size (rv, some x, s) (inv, sound) = elim (Bool-cases x.sign_active) [
  | inr e ↦ ground (arith, e, inv)
  | inl e ↦ ground (
    arith,
    e,
    update_fed-Safe s (sign_feed lib x memory size) inv
        (sign_feed-Fed s.grant x sound e lib memory size),
  )
]

pub c_sign_update-Safe :
    (checked : Bool) (lib : Gnutls) (now handle : ℕ) (memory : Option Bytes) (size : ℕ)
    (s : Cryptoki)
    → Inv s
    → Safe (c_sign_update checked lib now handle memory size s)
unfolding c_sign_update
c_sign_update-Safe checked lib now handle memory size s inv = ground (
  arith,
  inv,
  update_in-Safe lib memory size (operation_session_lookup now s handle)
      (operation_session_lookup-Found now s handle inv),
)

pub c_sign_final-Safe :
    (checked : Bool) (lib : Gnutls) (service : Service) (now handle : ℕ) (has_out : Bool)
    (room : Option ℕ) (s : Cryptoki)
    → Inv s
    → Safe (c_sign_final checked lib service now handle has_out room s)
unfolding c_sign_final
c_sign_final-Safe checked lib service now handle has_out none s inv = ground (arith, inv)
c_sign_final-Safe checked lib service now handle has_out (some room) s inv = ground (
  arith,
  inv,
  final_in-Safe lib service none 0 has_out room (operation_session_lookup now s handle)
      (operation_session_lookup-Found now s handle inv),
)
