-- ===== src/Session/Lookup.antt =====
-- GetDeviceSessionsForDevAddr and GetDeviceSessionForPHYPayload of
-- internal/storage/device_session.go. The reads from Redis and the check of the MIC
-- (`phy.ValidateUplinkDataMIC`, of the lorawan library) are parameters.
pub mod Match
use chirpstack_network_serve.Prelude.{
  ℕ, ◌+◌, ◌-◌, ◌%◌, ◌^◌, ◌≤◌, ◌<◌, ◌≡◌, refl, ◌⊎◌, Bool, true, false, Option, none, some, List, [],
  ◌∷◌, ◌++◌, arith, leb, ◌==◌, if◌then◌else◌, All, All-append, u32, ap, subst, ◌≢◌,
}
use chirpstack_network_serve.SessionData.{DeviceSession}
use chirpstack_network_serve.Session.FCnt.{get_full_f_cnt_up, get_full_f_cnt_up_exact}

-- What GetDeviceSession returns for a DevEUI: no session, another error, or a session with its
-- PendingRejoinDeviceSession.
pub data Fetched : Type 0 where
  does_not_exist : Fetched
  failed : Fetched
  fetched : DeviceSession → Option DeviceSession → Fetched

abbrev items_of : ℕ → Fetched → List DeviceSession
items_of dev_addr does_not_exist = []
items_of dev_addr failed = []
items_of dev_addr (fetched s none) = if s.dev_addr == dev_addr then s ∷ [] else []
items_of dev_addr (fetched s (some p)) =
    (if s.dev_addr == dev_addr then s ∷ [] else [])
    ++ (if p.dev_addr == dev_addr then p ∷ [] else [])

abbrev stale_of : ℕ → Fetched → List ℕ
stale_of dev_eui does_not_exist = dev_eui ∷ []
stale_of dev_eui _ = []

-- GetDeviceSessionsForDevAddr for the DevEUIs that use the DevAddr: the sessions, and the DevEUIs
-- that it removes from the set of the DevAddr.
unfoldable pub get_device_sessions_for_dev_addr :
    (ℕ → Fetched) → ℕ → List ℕ → List DeviceSession × List ℕ
get_device_sessions_for_dev_addr get dev_addr [] = ([], [])
get_device_sessions_for_dev_addr get dev_addr (e ∷ es) =
    let rest = get_device_sessions_for_dev_addr get dev_addr es in
    (items_of dev_addr (get e) ++ rest.0, stale_of e (get e) ++ rest.1)

items_of-dev_addr : (a : ℕ) (r : Fetched) → All (λ s. s.dev_addr ≡ a) (items_of a r)
items_of-dev_addr a does_not_exist = tt
items_of-dev_addr a failed = tt
items_of-dev_addr a (fetched s none) = ground arith
items_of-dev_addr a (fetched s (some p)) = ground arith

stale_of-missing :
    (get : ℕ → Fetched) (e : ℕ) (r : Fetched)
    → get e ≡ r
    → All (λ x. get x ≡ does_not_exist) (stale_of e r)
stale_of-missing get e does_not_exist h = (h, tt)
stale_of-missing get e failed h = tt
stale_of-missing get e (fetched s p) h = tt

-- Every session returned for a DevAddr, a pending rejoin session included, has that DevAddr, and
-- every DevEUI removed from its set is one of the set that has no session.
pub get_device_sessions_for_dev_addr_lem :
    (get : ℕ → Fetched) (a : ℕ) (es : List ℕ)
    → All (λ s. s.dev_addr ≡ a) (get_device_sessions_for_dev_addr get a es).0
      × All (λ e. get e ≡ does_not_exist) (get_device_sessions_for_dev_addr get a es).1
unfolding get_device_sessions_for_dev_addr
get_device_sessions_for_dev_addr_lem get a [] = (tt, tt)
get_device_sessions_for_dev_addr_lem get a (e ∷ es) =
    let ih = get_device_sessions_for_dev_addr_lem get a es in
    (
      All-append (λ s. s.dev_addr ≡ a) (items_of a (get e)) _ (items_of-dev_addr a (get e)) ih.0,
      All-append (λ x. get x ≡ does_not_exist) (stale_of e (get e)) _
          (stale_of-missing get e (get e) refl) ih.1,
    )

-- The results of GetDeviceSessionForPHYPayload; the number is the frame-counter that it leaves in
-- the payload.
pub data Outcome : Type 0 where
  found : ℕ → DeviceSession → Outcome
  retransmission : ℕ → DeviceSession → Outcome
  counter_reset : ℕ → DeviceSession → Outcome
  invalid_mic : ℕ → DeviceSession → Outcome
  mic_error : ℕ → Outcome
  no_session : ℕ → Outcome

-- ValidateUplinkDataMIC with a session's version, ConfFCnt and keys and with the given counter in
-- the frame; `none` is a software error.
abbrev pub MicCheck : Type 0
MicCheck = DeviceSession → ℕ → Option Bool

-- The inner loop over the two candidates for the counter: an error, no match, or the match.
pub data Tried : Type 0 where
  error_at : ℕ → Tried
  mismatch : Tried
  match_at : ℕ → Tried

abbrev try_original : Option Bool → ℕ → Tried
try_original none original = error_at original
try_original (some true) original = match_at original
try_original (some false) original = mismatch

abbrev try_full : Option Bool → ℕ → Tried → Tried
try_full none full next = error_at full
try_full (some true) full next = match_at full
try_full (some false) full next = next

unfoldable pub try_counters : MicCheck → DeviceSession → ℕ → Tried
try_counters mic ds original =
    let full = get_full_f_cnt_up ds.f_cnt_up original in
    try_full (mic ds full) full (try_original (mic ds original) original)

-- The checks on the frame-counter once the MIC is valid.
unfoldable pub check_counter : DeviceSession → ℕ → Outcome
check_counter ds f_cnt =
    if leb ds.f_cnt_up f_cnt
    then found f_cnt ds
    else if ds.skip_f_cnt_validation
    then found f_cnt (record ds { f_cnt_up = 0; uplink_history = [] })
    else if f_cnt == u32 (ds.f_cnt_up + 2 ^ 32 - 1)
    then retransmission f_cnt ds
    else counter_reset f_cnt ds

-- The loop over the sessions; `first` is deviceSessions[0].
search_sessions : MicCheck → ℕ → DeviceSession → List DeviceSession → Outcome
search_sessions mic original first [] = invalid_mic original first
search_sessions mic original first (ds ∷ rest) = elim (try_counters mic ds original) [
  | error_at f ↦ mic_error f
  | mismatch ↦ search_sessions mic original first rest
  | match_at f ↦ check_counter ds f
]

-- GetDeviceSessionForPHYPayload
unfoldable pub get_device_session_for_phy_payload : MicCheck → List DeviceSession → ℕ → Outcome
unfolding search_sessions
get_device_session_for_phy_payload mic [] original = no_session original
get_device_session_for_phy_payload mic (ds ∷ rest) original =
    search_sessions mic original ds (ds ∷ rest)
