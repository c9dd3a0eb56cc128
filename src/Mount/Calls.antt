-- ===== src/Mount/Calls.antt =====
-- Sequences of calls of `mxfs_create_instance` and `mxfs_release_instance`, the count and the lock.
use mxfs.Base.{ℕ, ◌≡◌, Bool, true, false, if◌then◌else◌, Option, none, some, List, [], ◌∷◌}
use mxfs.Instance.{Ret, Inst, Layer}
use mxfs.Driver.{Driver}
use mxfs.Mount.{Global, Call, ends, blocks_forever, create_instance, release_instance}

-- A call, with what malloc gives to it and the caller's arguments.
pub data Request : Type 0 where
  creates : (allocated : Bool) → Option Layer → Option (ℕ → Inst → Inst) → Request
  releases : Option Inst → Request

-- No instance is counted, one is, or the lock was left taken.
pub data Phase : Type 0 where
  idle : Phase
  live : Phase
  held : Phase

-- Whether the build has no lock, and a call that finds the wrong count: it leaves the lock taken.
abbrev refuse : Bool → Phase → Phase
refuse rp2040 q = if rp2040 then q else held

-- One call by its phases: nothing where it waits for ever. Only a release of NULL does not take the lock,
-- and whether the instance could be set up makes no difference.
unfoldable pub phase_step : Bool → Request → Phase → Option Phase
phase_step rp2040 (releases none) q = some q
phase_step rp2040 (releases (some inst)) idle = some (refuse rp2040 idle)
phase_step rp2040 (releases (some inst)) live = some idle
phase_step rp2040 (releases (some inst)) held = none
phase_step rp2040 (creates allocated missing callback) idle = some live
phase_step rp2040 (creates allocated missing callback) live = some (refuse rp2040 live)
phase_step rp2040 (creates allocated missing callback) held = none

unfoldable pub phase_steps : Bool → List Request → Option Phase → Option Phase
phase_steps rp2040 [] q = q
phase_steps rp2040 (r ∷ rs) none = none
phase_steps rp2040 (r ∷ rs) (some q) = phase_steps rp2040 rs (phase_step rp2040 r q)

module _ (drv : Driver) (rp2040 : Bool) (buffer_size : ℕ) where
  unfoldable left_create : Call (Ret × Option Inst × Global × drv.Dev) → Call (Global × drv.Dev)
  left_create blocks_forever = blocks_forever
  left_create (ends (r, inst, g, dev)) = ends (g, dev)

  unfoldable left_release : Call (Ret × Global × drv.Dev) → Call (Global × drv.Dev)
  left_release blocks_forever = blocks_forever
  left_release (ends (r, g, dev)) = ends (g, dev)

  -- One call, and what it leaves behind.
  unfoldable request : Request → Global × drv.Dev → Call (Global × drv.Dev)
  request (creates allocated missing callback) (g, dev) =
      left_create (create_instance drv rp2040 buffer_size allocated missing callback g dev)
  request (releases inst) (g, dev) = left_release (release_instance drv rp2040 inst g dev)

  -- One call after the other, up to one that blocks.
  pub requests : List Request → Call (Global × drv.Dev) → Call (Global × drv.Dev)
  requests [] s = s
  requests (q ∷ qs) blocks_forever = blocks_forever
  requests (q ∷ qs) (ends s) = requests qs (request q s)

  -- What a phase says of the count and of the lock, which the RP2040 does not have.
  abbrev pub Shows : Phase → Global → Type 0
  Shows idle g = (g.singleton ≡ 0) × (g.locked ≡ false)
  Shows live g = (g.singleton ≡ 1) × (g.locked ≡ false)
  Shows held g = (rp2040 ≡ false) × (g.locked ≡ true)

  -- The calls end where their phases do, and show the last phase.
  abbrev pub Agrees : Option Phase → Call (Global × drv.Dev) → Type 0
  Agrees none blocks_forever = Unit
  Agrees (some q) (ends (g, dev)) = Shows q g
  Agrees none (ends s) = ⊥
  Agrees (some q) blocks_forever = ⊥
