-- ===== src/Uplink/Flow/Trace.antt =====
-- The uplinks of one session over time, as steps from one stored session to the next.
use chirpstack_network_serve.Prelude.{
  ℕ, ◌+◌, ◌^◌, ◌≤◌, ◌<◌, ◌≡◌, ap, ◌∙◌, subst, false, some, List, [], ◌∷◌, arith, All, inl, inr,
}
use chirpstack_network_serve.SessionData.{DeviceSession}
use chirpstack_network_serve.Session.Lookup.{MicCheck, found, get_device_session_for_phy_payload}
use chirpstack_network_serve.Session.Lookup.Match.{IsOnly, IsOnly-Accepted}
use chirpstack_network_serve.Uplink.Flow.{Setting, saved_session}
use chirpstack_network_serve.Uplink.Flow.Saved.{saved_session_lem}

-- From the stored session s, frames with the counters fs are accepted one after the other, and t is
-- stored in the end. A frame, with any MIC check and any content, is looked up among any sessions of
-- which s is the only one of its device (no rejoin is pending with the same DevAddr), it is found for
-- that device, and the flow saves the session. In between, what else is done with the session (downlinks, say)
-- keeps its expected counter and its flag for the check. Frames that are refused save nothing.
pub data Accepts : DeviceSession → List ℕ → DeviceSession → Type 0 where
  quiet : {s : DeviceSession} → Accepts s [] s
  other :
      {s s' t : DeviceSession} {fs : List ℕ}
      → s'.f_cnt_up ≡ s.f_cnt_up
      → s'.skip_f_cnt_validation ≡ s.skip_f_cnt_validation
      → Accepts s' fs t
      → Accepts s fs t
  uplink :
      {s s' t : DeviceSession} {fs : List ℕ}
      → (mic : MicCheck) (original : ℕ) (ss : List DeviceSession) (ds : DeviceSession)
        (st : Setting)
      → IsOnly s ss
      → ds.dev_eui ≡ s.dev_eui
      → get_device_session_for_phy_payload mic ss original ≡ found st.frame.f_cnt ds
      → saved_session st ds ≡ some s'
      → Accepts s' fs t
      → Accepts s (st.frame.f_cnt ∷ fs) t

-- Each number is at least the bound, and those after it are greater than it.
abbrev pub IncreasingFrom : ℕ → List ℕ → Type 0
IncreasingFrom bound [] = Unit
IncreasingFrom bound (f ∷ fs) = (bound ≤ f) × IncreasingFrom (f + 1) fs

-- The uplinks that are accepted for the session of a device, which does not skip the check of the
-- counter and is the only one of its device in each lookup, have strictly increasing counters, the
-- first of them at least the expected one, as long as no counter is the largest 32-bit number: no
-- counter is accepted twice or out of order.
pub Accepts-IncreasingFrom :
    {s t : DeviceSession} {fs : List ℕ}
    → Accepts s fs t
    → s.skip_f_cnt_validation ≡ false
    → All (λ f. f + 1 < 2 ^ 32) fs
    → IncreasingFrom s.f_cnt_up fs
Accepts-IncreasingFrom quiet skip lt = tt
Accepts-IncreasingFrom {fs = fs} (other count flag rest) skip lt =
    subst (λ n. IncreasingFrom n fs) count (Accepts-IncreasingFrom rest (flag ∙ skip) lt)
Accepts-IncreasingFrom {s = s}
      (uplink {s' = s'} {fs = fs} mic original ss ds st only same e saved rest) skip lt =
    let f = st.frame.f_cnt in
    let a = IsOnly-Accepted mic original ss s ds f only same e in
    let after = saved_session_lem st ds s' saved in
    let fresh : (s.f_cnt_up ≤ f) × (ds ≡ s) = elim a.fresh [
      | inl h ↦ h
      | inr h ↦ absurd (ground (arith, h))
    ] in
    let flag : s'.skip_f_cnt_validation ≡ false =
      ap (λ c. c.skip_f_cnt_validation) after.3
      ∙ ap (λ d. d.skip_f_cnt_validation) fresh.1
      ∙ skip in
    let count : s'.f_cnt_up ≡ f + 1 = after.1 ∙ omega (arith, lt.0) in
    (fresh.0, subst (λ n. IncreasingFrom n fs) count (Accepts-IncreasingFrom rest flag lt.1))
