-- ===== src/Session/History.antt =====
-- AppendUplinkHistory of internal/storage/device_session.go.
use chirpstack_network_serve.Prelude.{
  ℕ, suc, ◌-◌, ◌≤◌, ◌≡◌, ◌≢◌, inl, inr, Bool, false, Option, none, some, List, [], ◌∷◌, ◌++◌, arith,
  ltb, ◌==◌, if◌then◌else◌, Bool-cases, ltb→lt, ltb→le, length, last?, drop, length-drop,
}
use chirpstack_network_serve.SessionData.{UplinkHistory, DeviceSession}

-- UplinkHistorySize
abbrev pub uplink_history_size : ℕ
uplink_history_size = 20

-- The last entry has the frame-counter of the new one.
abbrev is_retransmission : Option UplinkHistory → UplinkHistory → Bool
is_retransmission none up = false
is_retransmission (some l) up = l.f_cnt == up.f_cnt

-- The slice that keeps the most recent records.
abbrev most_recent : List UplinkHistory → List UplinkHistory
most_recent h =
    if ltb uplink_history_size (length h) then drop (length h - uplink_history_size) h else h

-- The new value of the field UplinkHistory.
unfoldable pub append_history : List UplinkHistory → UplinkHistory → List UplinkHistory
append_history h up = if is_retransmission (last? h) up then h else most_recent (h ++ up ∷ [])

-- AppendUplinkHistory
unfoldable pub append_uplink_history : DeviceSession → UplinkHistory → DeviceSession
append_uplink_history s up = record s { uplink_history = append_history s.uplink_history up }

-- No two neighbours have one frame-counter.
abbrev pub NoRepeat : List UplinkHistory → Type 0
NoRepeat [] = Unit
NoRepeat (x ∷ []) = Unit
NoRepeat (x ∷ y ∷ ys) = (x.f_cnt ≢ y.f_cnt) × NoRepeat (y ∷ ys)

NoRepeat-tail : (x : UplinkHistory) (xs : List UplinkHistory) → NoRepeat (x ∷ xs) → NoRepeat xs
NoRepeat-tail x [] h = tt
NoRepeat-tail x (y ∷ ys) h = h.1

NoRepeat-drop : (n : ℕ) (xs : List UplinkHistory) → NoRepeat xs → NoRepeat (drop n xs)
NoRepeat-drop ℕ.zero xs h = h
NoRepeat-drop (suc n) [] h = tt
NoRepeat-drop (suc n) (x ∷ xs) h = NoRepeat-drop n xs (NoRepeat-tail x xs h)

NoRepeat-snoc :
    (xs : List UplinkHistory) (up : UplinkHistory)
    → NoRepeat xs
    → is_retransmission (last? xs) up ≡ false
    → NoRepeat (xs ++ up ∷ [])
NoRepeat-snoc [] up h k = tt
NoRepeat-snoc (x ∷ []) up h k = (ground arith, tt)
NoRepeat-snoc (x ∷ y ∷ ys) up h k = (h.0, NoRepeat-snoc (y ∷ ys) up h.1 k)

-- What holds of the history in a session.
pub record IsHistory (h : List UplinkHistory) : Type 0 where
  pub bounded : length h ≤ uplink_history_size
  pub no_repeat : NoRepeat h

most_recent-bounded : (h : List UplinkHistory) → length (most_recent h) ≤ uplink_history_size
most_recent-bounded h = elim (Bool-cases (ltb uplink_history_size (length h))) [
  | inl e ↦
      let lt = ltb→lt uplink_history_size (length h) e in
      rw e (omega (arith, length-drop (length h - uplink_history_size) h))
  | inr e ↦ rw e (ltb→le _ _ e)
]

most_recent-NoRepeat : (h : List UplinkHistory) → NoRepeat h → NoRepeat (most_recent h)
most_recent-NoRepeat h n = elim (Bool-cases (ltb uplink_history_size (length h))) [
  | inl e ↦ rw e (NoRepeat-drop _ h n)
  | inr e ↦ rw e n
]

append_history-IsHistory :
    (h : List UplinkHistory) (up : UplinkHistory) → IsHistory h → IsHistory (append_history h up)
unfolding append_history
append_history-IsHistory h up i = elim (Bool-cases (is_retransmission (last? h) up)) [
  | inl e ↦ rw e i
  | inr e ↦ rw e (record {
    bounded = most_recent-bounded (h ++ up ∷ []);
    no_repeat = most_recent-NoRepeat (h ++ up ∷ []) (NoRepeat-snoc h up i.no_repeat e);
  })
]

-- Appending keeps the invariant of the history: at most 20 records, and no two neighbouring records
-- with one frame-counter.
pub append_uplink_history-IsHistory :
    (s : DeviceSession) (up : UplinkHistory)
    → IsHistory s.uplink_history
    → IsHistory (append_uplink_history s up).uplink_history
unfolding append_uplink_history
append_uplink_history-IsHistory s up i = append_history-IsHistory s.uplink_history up i

-- A record is appended unless the last one has its frame-counter.
pub record Appended (h : List UplinkHistory) (up : UplinkHistory) (h' : List UplinkHistory)
    : Type 0 where
  -- what was dropped at the front
  pub dropped : List UplinkHistory
  pub kept : dropped ++ h' ≡ h ++ up ∷ []
  -- nothing is dropped while there is room
  pub frugal : dropped ≢ [] → length h' ≡ uplink_history_size
