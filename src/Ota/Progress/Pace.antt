-- ===== src/Ota/Progress/Pace.antt =====
-- How fast the number on the screen of ui/ui_ota.c catches up with the upgrade.
use Prim.Native.Nat.add
use native.Mathlib.Nat.{add-zero}
use frameworks_system_ota.Prelude.{
  ℕ, zero, suc, ◌+◌, ◌*◌, ◌≤◌, ◌<◌, ◌≡◌, ◌∙◌, ap, inl, inr, Bool-cases, arith,
}
use frameworks_system_ota.Prelude.Int.{ℤ, pos, ◌≤ℤ◌, ◌<ℤ◌, ltb_ℤ}
use frameworks_system_ota.Ota.Progress.{Calc, ota_calc_progress}

pub ticks : ℕ → Calc → Calc
ticks zero c = c
ticks (suc n) c = ticks n (ota_calc_progress c)

abbrev pub at : ℕ → ℤ → ℤ → ℕ → ℕ → Calc
at current prev next slow fast = record {
  progress = record { current = pos current; prev_node = prev; next_node = next };
  slow_tick_count = slow;
  fast_tick_count = fast;
}

ticks-add : (m n : ℕ) (c : Calc) → ticks (m + n) c ≡ ticks n (ticks m c)
unfolding ticks
ticks-add zero n c = rw add.zero
ticks-add (suc m) n c = rw (add.suc m n) (ticks-add m n (ota_calc_progress c))

-- Behind `prev_node` the first two ticks only count, and the third one adds one to the number.
pub fast_wait :
    (k p slow fast : ℕ) (next : ℤ)
    → k < p
    → slow < 100
    → fast < 2
    → (slow' : ℕ) × (ota_calc_progress (at k (pos p) next slow fast)
        ≡ at k (pos p) next slow' (fast + 1))
      × (slow' ≤ slow + 1)
unfolding ota_calc_progress
fast_wait k p slow fast next hk hs hf = elim (Bool-cases (ltb_ℤ (pos k) next)) [
  | inl ahead ↦ (slow + 1, ground arith, ground arith)
  | inr there ↦ (slow, ground arith, ground arith)
]

pub fast_go :
    (k p slow fast : ℕ) (next : ℤ)
    → k < p
    → 2 ≤ fast
    → ota_calc_progress (at k (pos p) next slow fast) ≡ at (k + 1) (pos p) next 0 0
unfolding ota_calc_progress
fast_go k p slow fast next hk hf = ground arith

three_ticks :
    (k p slow : ℕ) (next : ℤ)
    → k < p
    → slow ≤ 97
    → ticks 3 (at k (pos p) next slow 0) ≡ at (k + 1) (pos p) next 0 0
unfolding ticks
three_ticks k p slow next hk hs =
    let (s1, e1, h1) = fast_wait k p slow 0 next hk (omega arith) (omega arith) in
    let (s2, e2, h2) = fast_wait k p s1 1 next hk (omega arith) (omega arith) in
    rw (e1, e2) (fast_go k p s2 2 next hk (omega arith))

-- With the upgrade at `p`, and the number at `k` and freshly moved, 3 ticks for each step bring
-- the number to any `k + n` up to `p`; so it reaches `p` itself.
pub catch_up :
    (n k p slow : ℕ) (next : ℤ)
    → k + n ≤ p
    → slow ≤ 97
    → (ticks (3 * n) (at k (pos p) next slow 0)).progress.current ≡ pos (k + n)
catch_up zero k p slow next hk hs = unfold ticks in ap pos (omega arith)
catch_up (suc n) k p slow next hk hs =
    let steps : 3 * suc n ≡ 3 + 3 * n = omega arith in
    rw (steps, ticks-add 3 (3 * n), three_ticks k p slow next (omega arith) hs)
      (catch_up n (k + 1) p 0 next (omega arith) (omega arith) ∙ ap pos (omega arith))

-- Ahead of `prev_node` a tick only counts, up to the hundredth.
slow_wait :
    (k slow fast : ℕ) (prev next : ℤ)
    → prev ≤ℤ pos k
    → pos k <ℤ next
    → k < 100
    → slow < 100
    → ota_calc_progress (at k prev next slow fast) ≡ at k prev next (slow + 1) fast
unfolding ota_calc_progress
slow_wait k slow fast prev next h1 h2 h3 h4 = ground arith

slow_ticks :
    (j k slow fast : ℕ) (prev next : ℤ)
    → prev ≤ℤ pos k
    → pos k <ℤ next
    → k < 100
    → slow + j ≤ 100
    → ticks j (at k prev next slow fast) ≡ at k prev next (slow + j) fast
unfolding ticks
slow_ticks zero k slow fast prev next h1 h2 h3 h4 = rw add-zero
slow_ticks (suc j) k slow fast prev next h1 h2 h3 h4 =
    rw (slow_wait k slow fast prev next h1 h2 h3 (omega arith)) (
      slow_ticks j k (slow + 1) fast prev next h1 h2 h3 (omega arith)
      ∙ ap (λ s. at k prev next s fast) (omega arith))

slow_go :
    (k fast : ℕ) (prev next : ℤ)
    → prev ≤ℤ pos k
    → pos k <ℤ next
    → k < 99
    → ota_calc_progress (at k prev next 100 fast) ≡ at (k + 1) prev next 0 0
unfolding ota_calc_progress
slow_go k fast prev next h1 h2 h3 = ground arith

-- Between the two nodes a freshly moved number below 99 stays for 100 ticks, and the next tick adds
-- one.
pub creep :
    (j k : ℕ) (prev next : ℤ)
    → prev ≤ℤ pos k
    → pos k <ℤ next
    → k < 99
    → j ≤ 100
    → ((ticks j (at k prev next 0 0)).progress.current ≡ pos k)
      × (ticks 101 (at k prev next 0 0) ≡ at (k + 1) prev next 0 0)
creep j k prev next h1 h2 h3 hj = (
  ap (λ (c : Calc). c.progress.current)
      (slow_ticks j k 0 0 prev next h1 h2 (omega arith) (omega arith)),
  ticks-add 100 1 (at k prev next 0 0)
      ∙ ap (ticks 1) (slow_ticks 100 k 0 0 prev next h1 h2 (omega arith) (omega arith))
      ∙ (unfold ticks in slow_go k 0 prev next h1 h2 h3),
)
