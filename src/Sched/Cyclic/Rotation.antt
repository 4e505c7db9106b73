-- ===== src/Sched/Cyclic/Rotation.antt =====
-- Which frame the cyclic policy runs next, and how long a frame can be passed over.
use native.Mathlib.Nat.{mod-eq_of_lt, add-mod_right}
use workhorse_rt.Common.{
  ℕ, suc, ◌+◌, ◌-◌, ◌%◌, ◌^◌, ◌≤◌, ◌<◌, ◌≡◌, ◌≢◌, refl, sym, ◌∙◌, ap, arith, true, false, some, ltb,
  leb, ◌==◌, if◌then◌else◌, Bool-cases, inl, inr,
}
use workhorse_rt.DeltaChain.{u32}
use workhorse_rt.Kernel.{Kernel, Config}
use workhorse_rt.Kernel.Monad.{ok, is_ready}
use workhorse_rt.Sched.Cyclic.{this_cyclic, slot, taken, pop}
use workhorse_rt.Sched.Cyclic.Due.{is_due, Next, ready_frame-Next}

-- The clock of `n` frames is at most `n`, and a sum of two such numbers fits in 32 bits.
pub record IsClock (n clock : ℕ) : Type 0 where
  pub frames : n ≤ 2 ^ 31
  pub in_range : clock ≤ n

-- Frames that the clock has ahead of it until `f`.
abbrev pub distance : ℕ → ℕ → ℕ → ℕ
distance n clock f = if leb clock f then f - clock else f + n - clock

-- The frame `i` after the clock, without the remainder.
abbrev turn : ℕ → ℕ → ℕ → ℕ
turn n clock i = if ltb (clock + i) n then clock + i else clock + i - n

slot-turn : (n clock i : ℕ) → IsClock n clock → i < n → slot n clock i ≡ turn n clock i
slot-turn n clock i c h =
    let fits : u32 (clock + i) ≡ clock + i =
      let a = c.frames in let b = c.in_range in omega arith in
    ap (λ x. x % n) fits ∙ elim (Bool-cases (ltb (clock + i) n)) [
      | inl below ↦ rw below (mod-eq_of_lt (ground arith))
      | inr above ↦
          let split : clock + i ≡ (clock + i - n) + n = ground arith in
          let small : clock + i - n < n = let b = c.in_range in ground arith in
          rw above (ap (λ x. x % n) split ∙ (add-mod_right (clock + i - n) n ∙ mod-eq_of_lt small))
    ]

slot-distance : (n clock f : ℕ) → IsClock n clock → f < n → slot n clock (distance n clock f) ≡ f
slot-distance n clock f c h =
    let b = c.in_range in
    let small : distance n clock f < n = ground arith in
    slot-turn n clock (distance n clock f) c small ∙ ground arith

-- A frame that is passed over comes nearer.
distance-slot :
    (n clock i f : ℕ)
    → IsClock n clock
    → f < n
    → i < distance n clock f
    → distance n (u32 (slot n clock i + 1)) f + i + 1 ≡ distance n clock f
distance-slot n clock i f c h near =
    let a = c.frames in
    let b = c.in_range in rw (slot-turn n clock i c (ground arith)) (ground arith)

-- Thread `t` waits for its frame `f` of this cpu.
pub record Waits (cfg : Config) (k : Kernel) (f t : ℕ) : Type 0 where
  pub clock : IsClock cfg.num_frames (this_cyclic k).clock
  pub in_range : f < cfg.num_frames
  pub owns : (this_cyclic k).frames f ≡ some t
  pub ready : is_ready (k.tasks t).state ≡ true
  pub counted : 0 < (this_cyclic k).num_ready_threads

-- What kSchedTaskPopCyclic does while `t` waits for frame `f`.
pub record Rotated (cfg : Config) (k : Kernel) (f : ℕ) : Type 0 where
  pub task : ℕ
  pub after : Kernel
  pub run : pop cfg k ≡ ok task after
  pub i : ℕ
  pub near : i ≤ distance cfg.num_frames (this_cyclic k).clock f
  pub owns : (this_cyclic k).frames (slot cfg.num_frames (this_cyclic k).clock i) ≡ some task
  pub ready : is_ready (k.tasks task).state ≡ true
  pub first :
      (e : ℕ)
      → e < i
      → is_due k.tasks ((this_cyclic k).frames (slot cfg.num_frames (this_cyclic k).clock e))
        ≡ false
  pub clock : (this_cyclic after).clock ≡ u32 (slot cfg.num_frames (this_cyclic k).clock i + 1)
  pub frames : (this_cyclic after).frames ≡ (this_cyclic k).frames
  pub count : (this_cyclic after).num_ready_threads + 1 ≡ (this_cyclic k).num_ready_threads
  pub slice :
      (after.tasks task).thread.link_cyclic.remaining_timeslice_ticks
      ≡ (k.tasks task).thread.param_cyclic.timeslice_ticks

due_at :
    (cfg : Config) (k : Kernel) (f t : ℕ)
    → Waits cfg k f t
    → is_due k.tasks (
        (this_cyclic k).frames (
          slot cfg.num_frames
            (this_cyclic k).clock
            (distance cfg.num_frames (this_cyclic k).clock f)))
      ≡ true
unfolding is_due
due_at cfg k f t w =
    let e = slot-distance cfg.num_frames (this_cyclic k).clock f w.clock w.in_range in
    rw (ap (this_cyclic k).frames e ∙ w.owns, is_due) w.ready

counted_nonzero :
    (cfg : Config) (k : Kernel) (f t : ℕ)
    → Waits cfg k f t
    → ((this_cyclic k).num_ready_threads == 0) ≡ false
counted_nonzero cfg k f t w = let h = w.counted in ground arith

-- While a thread waits for a frame, kSchedTaskPopCyclic does not fail. It takes the first frame, from
-- the clock on and round, whose thread is ready, which comes no later than that frame; it returns its
-- thread with a full timeslice, sets the clock behind that frame and counts one ready thread less.
pub pop-Rotated : (cfg : Config) (k : Kernel) {f t : ℕ} → Waits cfg k f t → Rotated cfg k f
unfolding pop
pop-Rotated cfg k {f} {t} w =
    elim (ready_frame-Next k.tasks (this_cyclic k).frames cfg.num_frames (this_cyclic k).clock
      cfg.num_frames 0) [
        | Next.nothing none_due e ↦
            absurd (cc (due_at cfg k f t w, none_due d (omega arith) (ground arith)))
        | Next.frame i u from below owns ready earlier e ↦ record {
          task = u;
          after = taken (slot cfg.num_frames (this_cyclic k).clock i) u k;
          run = rw (counted_nonzero cfg k f t w) (rw (e, pop) refl);
          i = i;
          near = elim (Bool-cases (ltb d i)) [
            | inl behind ↦ absurd (cc (due_at cfg k f t w, earlier d (omega arith) (ground arith)))
            | inr near ↦ ground arith
          ];
          owns = owns;
          ready = ready;
          first = λ e. earlier e (omega arith);
          clock = ground arith;
          frames = ground arith;
          count = let h = w.counted in ground arith;
          slice = ground arith;
        }
      ]
  where
    d : ℕ
    d = distance cfg.num_frames (this_cyclic k).clock f

-- `n` pops in a row since the clock stood at `start` have run other threads while `t` waited for its
-- frame `f`. Between two pops the kernel may change but for the clock.
pub data PassedOver (cfg : Config) (f t start : ℕ) : ℕ → Kernel → Type 0 where
  none_yet :
      (k : Kernel) → (this_cyclic k).clock ≡ start → Waits cfg k f t → PassedOver cfg f t start 0 k
  once_more :
      {n : ℕ} (k mid after : Kernel) (other : ℕ)
      → PassedOver cfg f t start n k
      → pop cfg k ≡ ok other mid
      → other ≢ t
      → (this_cyclic after).clock ≡ (this_cyclic mid).clock
      → Waits cfg after f t
      → PassedOver cfg f t start (suc n) after

PassedOver-Waits :
    {cfg : Config} {f t start n : ℕ} {k : Kernel} → PassedOver cfg f t start n k → Waits cfg k f t
PassedOver-Waits (PassedOver.none_yet k e w) = w
PassedOver-Waits (PassedOver.once_more k mid after other p run e c w) = w

state_of : (k k' : Kernel) (t u : ℕ) → ok t k ≡ ok u k' → k ≡ k'
state_of k k' t u e = cc

nearer :
    (cfg : Config) (k mid after : Kernel) (f t other : ℕ)
    → Waits cfg k f t
    → pop cfg k ≡ ok other mid
    → other ≢ t
    → (this_cyclic after).clock ≡ (this_cyclic mid).clock
    → distance cfg.num_frames (this_cyclic after).clock f
      < distance cfg.num_frames (this_cyclic k).clock f
nearer cfg k mid after f t other w run e c =
    let p = pop-Rotated cfg k w in
    let ended : ok p.task p.after ≡ ok other mid = sym p.run ∙ run in
    let clock : (this_cyclic after).clock ≡ u32 (slot n (this_cyclic k).clock p.i + 1) =
      c
      ∙ (ap (λ x. (this_cyclic x).clock) (sym (state_of p.after mid p.task other ended))
          ∙ p.clock) in
    let before : p.i < d = elim (Bool-cases (p.i == d)) [
      | inl here ↦ absurd (e (same_owner p (ground arith) ended))
      | inr other_frame ↦ let h = p.near in ground arith
    ] in
    rw clock
      (let h = distance-slot n (this_cyclic k).clock p.i f w.clock w.in_range before in omega arith)
  where
    n : ℕ
    n = cfg.num_frames

    d : ℕ
    d = distance n (this_cyclic k).clock f

    same_owner : (p : Rotated cfg k f) → p.i ≡ d → ok p.task p.after ≡ ok other mid → other ≡ t
    same_owner p here ended =
        let at : (this_cyclic k).frames f ≡ some p.task =
          ap (this_cyclic k).frames (
            sym (slot-distance n (this_cyclic k).clock f w.clock w.in_range)
            ∙ ap (slot n (this_cyclic k).clock) (sym here))
          ∙ p.owns in
        let o = w.owns in cc

PassedOver-distance :
    {cfg : Config} {f t start n : ℕ} {k : Kernel}
    → PassedOver cfg f t start n k
    → n + distance cfg.num_frames (this_cyclic k).clock f ≤ distance cfg.num_frames start f
PassedOver-distance {cfg} {f} (PassedOver.none_yet k e w) = rw e (omega arith)
PassedOver-distance {cfg} {f} {t} (PassedOver.once_more k mid after other p run e c w) =
    let ih = PassedOver-distance p in
    let less = nearer cfg k mid after f t other (PassedOver-Waits p) run e c in omega arith

PassedOver-start :
    {cfg : Config} {f t start n : ℕ} {k : Kernel}
    → PassedOver cfg f t start n k
    → start ≤ cfg.num_frames
PassedOver-start (PassedOver.none_yet k e w) = rw (← e) w.clock.in_range
PassedOver-start (PassedOver.once_more k mid after other p run e c w) = PassedOver-start p

-- However the kernel changes meanwhile but for the clock, a ready thread that waits for a frame is
-- passed over fewer times than there are frames.
pub PassedOver-num_frames :
    (cfg : Config) {f t start n : ℕ} (k : Kernel)
    → PassedOver cfg f t start n k
    → n < cfg.num_frames
PassedOver-num_frames cfg k p =
    let a = (PassedOver-Waits p).in_range in
    let small = PassedOver-start p in let b = PassedOver-distance p in ground arith
