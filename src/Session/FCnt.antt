-- ===== src/Session/FCnt.antt =====
-- GetFullFCntUp of internal/storage/device_session.go: the 32-bit frame-counter from the 16 bits
-- that a frame carries.
use chirpstack_network_serve.Prelude.{
  ℕ, ◌+◌, ◌-◌, ◌%◌, ◌^◌, ◌≤◌, ◌<◌, ◌≡◌, arith, ◌==◌, if◌then◌else◌, u16, u32,
}

-- GetFullFCntUp; the subtractions wrap at the width of their type.
unfoldable pub get_full_f_cnt_up : ℕ → ℕ → ℕ
get_full_f_cnt_up next_expected truncated =
    if truncated == u32 (u16 (next_expected % 2 ^ 16 + 2 ^ 16 - 1))
    then u32 (next_expected + 2 ^ 32 - 1)
    else let gap = u32 (u16 (u16 truncated + 2 ^ 16 - u16 (next_expected % 2 ^ 16))) in
      u32 (next_expected + gap)

-- For a frame-counter f that is at most one behind the next expected counter and at most 65534
-- ahead of it, the full counter computed from the lower 16 bits of f is f itself.
pub get_full_f_cnt_up_exact :
    (next f : ℕ)
    → next ≤ f + 1
    → f ≤ next + 65534
    → f < 2 ^ 32
    → get_full_f_cnt_up next (f % 2 ^ 16) ≡ f
unfolding get_full_f_cnt_up
get_full_f_cnt_up_exact next f h k l = ground arith

-- The full counter always has the received 16 bits as its lower bits and fits in 32 bits, and it is
-- the next expected counter plus at most 65534, or one less, modulo 2^32.
pub get_full_f_cnt_up_truncates :
    (next t : ℕ)
    → next < 2 ^ 32
    → t < 2 ^ 16
    → (get_full_f_cnt_up next t % 2 ^ 16 ≡ t)
      × (get_full_f_cnt_up next t < 2 ^ 32)
      × ((get_full_f_cnt_up next t + 2 ^ 32 + 1 - next) % 2 ^ 32 < 2 ^ 16)
unfolding get_full_f_cnt_up
get_full_f_cnt_up_truncates next t h k = (ground arith, ground arith, ground arith)
