-- ===== src/Plugin/Thread.antt =====
-- Which threads kPluginInitTaskThread admits, and what it leaves when it does not.
use workhorse_rt.Common.{
  ℕ, suc, ◌≤◌, ◌<◌, ◌≡◌, ◌⊎◌, refl, ◌∙◌, Bool, true, false, ◌||◌, Option, none, some, arith, leb,
  ◌==◌, Bool-cases, inl, inr, update, ap,
}
use workhorse_rt.Bitmap.{Bitmap, test_bit, ffs}
use workhorse_rt.Bitmap.Bytes.{IsBytes}
use workhorse_rt.Bitmap.Scan.{IsLowest, ffs-IsLowest}
use workhorse_rt.Kernel.{Kernel, Config}
use workhorse_rt.Kernel.Monad.{Run, ok}
use workhorse_rt.Sched.Policy.{Policy}
use workhorse_rt.Plugin.{
  Port, InitResult, ThreadParam, admit, own_overlaps, own_reserve, reserved, after_port,
  unless_overlap,
}
use workhorse_rt.Plugin.Reserve.{Overlap, overlaps-Overlap, claims, reserve-Reserved}

module _ (cfg : Config) (p : ThreadParam) (k : Kernel) where
  abbrev pub wants : ℕ → Bool
  wants i = test_bit p.param_cyclic.frame_bmp i

  abbrev pub has_taken : ℕ → Bool
  has_taken i = test_bit (k.frame_bmps p.cpu_id) i

  -- Why the policy does not take the thread.
  abbrev pub Refusal : Policy → Type 0
  Refusal Policy.rr = (cfg.num_prio ≤ p.param_rr.prio) ⊎ (p.param_rr.timeslice_ticks ≡ 0)
  Refusal Policy.cyclic =
      (p.param_cyclic.timeslice_ticks ≡ 0)
      ⊎ (((i : ℕ) → i < cfg.num_frames → wants i ≡ false)
          ⊎ ((i : ℕ) × (i < cfg.num_frames) × (wants i ≡ true) × (has_taken i ≡ true)))
  Refusal Policy.edf = p.virtual_deadline ≡ 0

  -- What the policy takes the thread for, and with which frames taken.
  abbrev pub Admission : Policy → (ℕ → Bitmap) → Type 0
  Admission Policy.rr frames =
      (p.param_rr.prio < cfg.num_prio) × (0 < p.param_rr.timeslice_ticks) × (frames ≡ k.frame_bmps)
  Admission Policy.cyclic frames =
      (0 < p.param_cyclic.timeslice_ticks)
      × ((i : ℕ) × (i < cfg.num_frames) × (wants i ≡ true))
      × ((i : ℕ) → i < cfg.num_frames → wants i ≡ true → has_taken i ≡ false)
      × IsBytes (frames p.cpu_id)
      × ((i : ℕ)
          → test_bit (frames p.cpu_id) i
            ≡ (claims cfg.num_frames p.param_cyclic.frame_bmp 0 i || has_taken i))
  Admission Policy.edf frames = (0 < p.virtual_deadline) × (frames ≡ k.frame_bmps)

  abbrev with_frames : (ℕ → Bitmap) → Kernel
  with_frames frames = record k { frame_bmps = frames }

-- What comes of asking the policy and the port: a refusal or an error of the port leave the kernel
-- as it was.
pub data Admitted (cfg : Config) (port : Port) (p : ThreadParam) (k : Kernel) (y : Policy)
    : Run InitResult → Type 0 where
  refused : Refusal cfg p k y → Admitted cfg port p k y (ok InitResult.refused k)
  port_error :
      (e : ℕ)
      → port.thread_info_init p.arch_param ≡ some e
      → Admitted cfg port p k y (ok (InitResult.port_error e) k)
  admitted :
      (frames : ℕ → Bitmap)
      → port.thread_info_init p.arch_param ≡ none
      → Admission cfg p k y frames
      → Admitted cfg port p k y (ok InitResult.done (record k { frame_bmps = frames }))

module _ (cfg : Config) (policy : Policy) (port : Port) (p : ThreadParam) (k : Kernel) where
  plain :
      (y : Policy) (o : Option ℕ)
      → port.thread_info_init p.arch_param ≡ o
      → Admission cfg p k y k.frame_bmps
      → Admitted cfg port p k y (after_port o (λ k'. ok InitResult.done k') k)
  plain y none e a = Admitted.admitted k.frame_bmps e a
  plain y (some n) e a = Admitted.port_error n e

  rr_case : Admitted cfg port p k Policy.rr (admit cfg policy port Policy.rr p k)
  unfolding admit
  rr_case =
      elim (Bool-cases (leb cfg.num_prio p.param_rr.prio || (p.param_rr.timeslice_ticks == 0))) [
        | inl bad ↦ rw bad (
            Admitted.refused (elim (Bool-cases (leb cfg.num_prio p.param_rr.prio)) [
              | inl high ↦ inl (ground arith)
              | inr low ↦ inr (ground arith)
            ]))
        | inr good ↦ rw good (
            plain Policy.rr (port.thread_info_init p.arch_param) refl
              (ground arith, ground arith, refl))
      ]

  edf_case : Admitted cfg port p k Policy.edf (admit cfg policy port Policy.edf p k)
  unfolding admit
  edf_case = elim (Bool-cases (p.virtual_deadline == 0)) [
    | inl bad ↦ rw bad (Admitted.refused (ground arith))
    | inr good ↦
        rw good (plain Policy.edf (port.thread_info_init p.arch_param) refl (ground arith, refl))
  ]

  own_frames : Bitmap
  own_frames = p.param_cyclic.frame_bmp

  take_frames :
      (o : Option ℕ)
      → port.thread_info_init p.arch_param ≡ o
      → IsBytes (k.frame_bmps p.cpu_id)
      → 0 < p.param_cyclic.timeslice_ticks
      → ((i : ℕ) × (i < cfg.num_frames) × (wants cfg p k i ≡ true))
      → ((i : ℕ) → i < cfg.num_frames → wants cfg p k i ≡ true → has_taken cfg p k i ≡ false)
      → Admitted cfg port p k Policy.cyclic
          (after_port o (reserved p.cpu_id (own_reserve cfg policy port p k)) k)
  take_frames (some n) e b slice wanted free = Admitted.port_error n e
  take_frames none e b slice wanted free =
      let (after, run, bytes, same) =
        reserve-Reserved cfg.num_frames p.param_cyclic.frame_bmp (suc cfg.num_frames) 0
          (k.frame_bmps p.cpu_id) b (omega arith) in
      let frames : ℕ → Bitmap = update k.frame_bmps p.cpu_id after in
      let own : frames p.cpu_id ≡ after = ground arith in
      rw run (
        Admitted.admitted frames e
          (slice, wanted, free, rw own bytes, λ i. ap (λ m. test_bit m i) own ∙ same i))

  frames_case :
      (r : Option ℕ)
      → IsLowest p.param_cyclic.frame_bmp cfg.num_frames 0 r
      → IsBytes (k.frame_bmps p.cpu_id)
      → 0 < p.param_cyclic.timeslice_ticks
      → Admitted cfg port p k Policy.cyclic (elim r [
        | none ↦ ok InitResult.refused k
        | some _ ↦
            unless_overlap
              (own_overlaps cfg policy port p k)
              (after_port
                (port.thread_info_init p.arch_param)
                (reserved p.cpu_id (own_reserve cfg policy port p k)))
              k
      ])
  frames_case none h b slice = Admitted.refused (inr (inl (λ i below. h i (omega arith) below)))
  frames_case (some j) h b slice =
      elim (overlaps-Overlap cfg.num_frames p.param_cyclic.frame_bmp (k.frame_bmps p.cpu_id)
        (suc cfg.num_frames) 0 (omega arith)) [
          | Overlap.clash i below set both r ↦
              rw r (Admitted.refused (inr (inr (i, below, set, both))))
          | Overlap.free f r ↦ rw r (
              take_frames (port.thread_info_init p.arch_param) refl b slice (j, h.1, h.2)
                (λ i below set. f i (omega arith) below set))
        ]

  cyclic_case :
      IsBytes (k.frame_bmps p.cpu_id)
      → Admitted cfg port p k Policy.cyclic (admit cfg policy port Policy.cyclic p k)
  unfolding admit
  cyclic_case b = elim (Bool-cases (p.param_cyclic.timeslice_ticks == 0)) [
    | inl bad ↦ rw bad (Admitted.refused (inl (ground arith)))
    | inr good ↦ rw good (
        frames_case (ffs p.param_cyclic.frame_bmp cfg.num_frames 0)
          (ffs-IsLowest p.param_cyclic.frame_bmp cfg.num_frames 0) b (ground arith))
  ]

-- Of a thread that the parameters of the policy in use do not fit, kPluginInitTaskThread changes
-- nothing; nor of one whose part the port refuses. Under the cyclic policy the first are those with no
-- timeslice, with no frame, or with a frame that another thread of the cpu has; a thread that is
-- admitted takes its frames, so that no other thread gets one of them.
pub admit-Admitted :
    (cfg : Config) (policy : Policy) (port : Port) (p : ThreadParam) (k : Kernel) (y : Policy)
    → IsBytes (k.frame_bmps p.cpu_id)
    → Admitted cfg port p k y (admit cfg policy port y p k)
admit-Admitted cfg policy port p k Policy.rr b = rr_case cfg policy port p k
admit-Admitted cfg policy port p k Policy.cyclic b = cyclic_case cfg policy port p k b
admit-Admitted cfg policy port p k Policy.edf b = edf_case cfg policy port p k
