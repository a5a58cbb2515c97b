-- ===== src/Gc/Collect.antt =====
-- A whole collection, `su_gc` of src/vm/gc.c.
use saurus.Base.{ℕ, ◌≤◌, ◌≡◌, ap, ◌∙◌, length, ok, ◌>>=◌}
use saurus.Gc.{GcState, gray_size, begin, scan_all, end, drain, su_gc}
use saurus.Gc.Cycle.{Ready, Collected, mark-Collected}

-- Between collections, with no more objects than the gray stack has room for (512), `su_gc` ends: no
-- dangling pointer is followed, the gray stack does not overflow and no loop runs on. Every object that
-- is reached from the roots through white objects is kept, as is every object that is new since the
-- last collection (GC_FLAG_TRANS), both as white; every other object is freed, and `num_objects` counts
-- what is left. A new object is not followed: an object that only new ones refer to is freed.
pub su_gc-Collected :
    (f : ℕ) (s : GcState)
    → Ready s
    → length s.objects ≤ gray_size
    → (s' : GcState) × (su_gc f s ≡ ok s') × Collected s s'
unfolding su_gc drain
su_gc-Collected f s ready small =
    let (m, run, m', run', c) = mark-Collected s ready small in
    let drained : drain f s s.gray_stack ≡ ok s = ap (drain f s) ready.done in
    (
      end s m',
      ap (λ x. x >>= λ t. begin t >>= λ y. scan_all y >>= λ z. ok (end t z)) drained
          ∙ ap (λ x. x >>= λ y. scan_all y >>= λ z. ok (end s z)) run
          ∙ ap (λ x. x >>= λ z. ok (end s z)) run',
      c,
    )
