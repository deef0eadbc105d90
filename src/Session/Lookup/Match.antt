-- ===== src/Session/Lookup/Match.antt =====
-- GetDeviceSessionForPHYPayload of internal/storage/device_session.go: which frames it accepts.
use chirpstack_network_serve.Prelude.{
  ℕ, ◌+◌, ◌%◌, ◌^◌, ◌≤◌, ◌<◌, ◌≡◌, refl, ◌⊎◌, true, false, some, List, [], ◌∷◌, ◌++◌, arith, All,
  ap, subst, ◌≢◌, sym, ◌∙◌, inl, inr,
}
use chirpstack_network_serve.SessionData.{DeviceSession}
use chirpstack_network_serve.Session.FCnt.{
  get_full_f_cnt_up, get_full_f_cnt_up_exact, get_full_f_cnt_up_truncates,
}
use chirpstack_network_serve.Session.Lookup.{
  found, mic_error, MicCheck, Tried, error_at, mismatch, match_at, try_counters, check_counter,
  search_sessions, get_device_session_for_phy_payload,
}

-- Neither counter gives a valid MIC.
abbrev pub Mismatches : MicCheck → ℕ → DeviceSession → Type 0
Mismatches mic original s =
    (mic s (get_full_f_cnt_up s.f_cnt_up original) ≡ some false) × (mic s original ≡ some false)

-- The session s is returned as ds for the counter f: the MIC is valid for it, it is one of the two
-- candidates, and it is not below the expected counter unless the session skips that check.
pub record Accepted (mic : MicCheck) (original : ℕ) (s ds : DeviceSession) (f : ℕ) : Type 0 where
  pub valid : mic s f ≡ some true
  pub candidate : (f ≡ get_full_f_cnt_up s.f_cnt_up original) ⊎ (f ≡ original)
  pub fresh :
      ((s.f_cnt_up ≤ f) × (ds ≡ s))
      ⊎ ((s.skip_f_cnt_validation ≡ true)
          × (f < s.f_cnt_up)
          × (ds ≡ record s { f_cnt_up = 0; uplink_history = [] }))

-- The first session with a valid MIC is accepted.
pub record FirstAccepted (mic : MicCheck) (original : ℕ) (ss : List DeviceSession)
    (ds : DeviceSession) (f : ℕ) : Type 0 where
  pub before : List DeviceSession
  pub session : DeviceSession
  pub after : List DeviceSession
  pub split : ss ≡ before ++ session ∷ after
  pub no_match_before : All (Mismatches mic original) before
  pub accepted : Accepted mic original session ds f

module _ (mic : MicCheck) (original : ℕ) where
  try_counters-mismatch :
      (s : DeviceSession) → try_counters mic s original ≡ mismatch → Mismatches mic original s
  unfolding try_counters
  try_counters-mismatch s h = ground arith

  check_counter-Accepted :
      (s ds : DeviceSession) (f g : ℕ)
      → try_counters mic s original ≡ match_at g
      → check_counter s g ≡ found f ds
      → Accepted mic original s ds f
  unfolding try_counters check_counter
  check_counter-Accepted s ds f g h k = record {
    valid = ground arith;
    candidate = ground arith;
    fresh = ground arith;
  }

  search_sessions-found :
      (first : DeviceSession) (ss : List DeviceSession) (ds : DeviceSession) (f : ℕ)
      → search_sessions mic original first ss ≡ found f ds
      → FirstAccepted mic original ss ds f
  unfolding search_sessions
  search_sessions-found first [] ds f h = cc
  search_sessions-found first (s ∷ rest) ds f h =
      step (try_counters mic s original) refl h (search_sessions-found first rest ds f)
    where
      step :
          (t : Tried)
          → try_counters mic s original ≡ t
          → elim t [
            | error_at f' ↦ mic_error f'
            | mismatch ↦ search_sessions mic original first rest
            | match_at f' ↦ check_counter s f'
          ]
            ≡ found f ds
          → (search_sessions mic original first rest ≡ found f ds
              → FirstAccepted mic original rest ds f)
          → FirstAccepted mic original (s ∷ rest) ds f
      step (error_at g) e k ih = cc
      step mismatch e k ih =
          let r = ih k in
          record {
            before = s ∷ r.before;
            session = r.session;
            after = r.after;
            split = ap (λ l. s ∷ l) r.split;
            no_match_before = (try_counters-mismatch s e, r.no_match_before);
            accepted = r.accepted;
          }
      step (match_at g) e k ih = record {
        before = [];
        session = s;
        after = rest;
        split = refl;
        no_match_before = tt;
        accepted = check_counter-Accepted s ds f g e k;
      }

  -- An uplink is matched with the first session for which the MIC is valid, with the full or with
  -- the received counter; that counter is not below the expected one, or the session skips the
  -- check and starts anew with counter 0 and an empty history.
  pub get_device_session_for_phy_payload-found :
      (ss : List DeviceSession) (ds : DeviceSession) (f : ℕ)
      → get_device_session_for_phy_payload mic ss original ≡ found f ds
      → FirstAccepted mic original ss ds f
  unfolding get_device_session_for_phy_payload
  get_device_session_for_phy_payload-found [] ds f h = cc
  get_device_session_for_phy_payload-found (s ∷ ss) ds f h = search_sessions-found s (s ∷ ss) ds f h

-- Among the sessions that are looked up, only s is one of its device.
abbrev pub IsOnly : DeviceSession → List DeviceSession → Type 0
IsOnly s ss = All (λ x. x.dev_eui ≡ s.dev_eui → x ≡ s) ss

All-middle :
    (P : DeviceSession → Type 0) (before : List DeviceSession) (x : DeviceSession)
    (after : List DeviceSession)
    → All P (before ++ x ∷ after)
    → P x
All-middle P [] x after h = h.0
All-middle P (b ∷ bs) x after h = All-middle P bs x after h.1

-- A frame that is found for the device of s is accepted by s itself.
pub IsOnly-Accepted :
    (mic : MicCheck) (original : ℕ) (ss : List DeviceSession) (s ds : DeviceSession) (f : ℕ)
    → IsOnly s ss
    → ds.dev_eui ≡ s.dev_eui
    → get_device_session_for_phy_payload mic ss original ≡ found f ds
    → Accepted mic original s ds f
IsOnly-Accepted mic original ss s ds f only same e =
    let r = get_device_session_for_phy_payload-found mic original ss ds f e in
    let of_device : ds.dev_eui ≡ r.session.dev_eui = elim r.accepted.fresh [
      | inl h ↦ ap (λ d. d.dev_eui) h.1
      | inr h ↦ ap (λ d. d.dev_eui) h.2
    ] in
    let unique =
      All-middle (λ x. x.dev_eui ≡ s.dev_eui → x ≡ s) r.before r.session r.after
        (subst (IsOnly s) r.split only) in
    subst (λ x. Accepted mic original x ds f) (unique (sym of_device ∙ same)) r.accepted

-- A frame with a counter f that the session s has passed is found for the device of s only as a frame
-- with another counter: at least 2^16 larger, not for the last frame (the one right below the
-- expected counter), and only where the check of the MIC passes for that other counter. The session
-- does not skip the check of the counter and is the only one of its device among those looked up.
pub get_device_session_for_phy_payload-no_replay :
    (mic : MicCheck) (ss : List DeviceSession) (s ds : DeviceSession) (f g : ℕ)
    → IsOnly s ss
    → f < s.f_cnt_up
    → s.f_cnt_up < 2 ^ 32
    → s.skip_f_cnt_validation ≡ false
    → get_device_session_for_phy_payload mic ss (f % 2 ^ 16) ≡ found g ds
    → ds.dev_eui ≡ s.dev_eui
    → (mic s g ≡ some true) × (f + 1 < s.f_cnt_up) × (f + 2 ^ 16 ≤ g)
get_device_session_for_phy_payload-no_replay mic ss s ds f g only passed lt skip e same =
    let a = IsOnly-Accepted mic (f % 2 ^ 16) ss s ds g only same e in
    let fresh : s.f_cnt_up ≤ g = elim a.fresh [
      | inl h ↦ h.0
      | inr h ↦ absurd (ground (arith, h))
    ] in
    let full : g ≡ get_full_f_cnt_up s.f_cnt_up (f % 2 ^ 16) = elim a.candidate [
      | inl h ↦ h
      | inr h ↦ absurd (omega (arith, h, fresh, passed))
    ] in
    let bits = get_full_f_cnt_up_truncates s.f_cnt_up (f % 2 ^ 16) lt (omega arith) in
    let low : g % 2 ^ 16 ≡ f % 2 ^ 16 = ap (λ n. n % 2 ^ 16) full ∙ bits.0 in
    let not_last : f + 1 ≢ s.f_cnt_up = λ last. absurd (
      omega (
        arith,
        fresh,
        passed,
        full
            ∙ get_full_f_cnt_up_exact s.f_cnt_up f (omega (arith, last)) (omega (arith, last))
                (omega (arith, lt, passed)),
      )) in
    (a.valid, omega (arith, passed, not_last), omega (arith, low, fresh, passed))
