-- ===== src/Tests/Gc.antt =====
-- A small heap of src/vm/gc.c, collected.
use saurus.Base.{
  ℕ, ◌≡◌, ◌⊎◌, refl, none, List, [], ◌∷◌, inl, inr, Run, ok, raise, fault, All, arith,
}
use saurus.Gc.{
  flag_trans, flag_white, immediate, object, Body, su_vector, vector_node, other, Object, GcState,
  children, deref, roots, su_gc, gc_insert_object,
}
use saurus.Gc.Flags.{addresses}
use saurus.Gc.Mark.{In-All, deref-All}
use saurus.Gc.Cycle.{Ready, Collected}
use saurus.Gc.Collect.{su_gc-Collected}
use saurus.Gc.Insert.{gc_insert_object-Ready}

abbrev white_object : ℕ → Body → Object
white_object r b = record { address = r; flags = flag_white; body = b }

abbrev new_object : ℕ → Body → Object
new_object r b = record { address = r; flags = flag_trans; body = b }

-- A vector (1) with a node (2), an empty tail (3) and a string (4), a new vector (5) over the same node
-- with a new tail (6), and a string that nothing refers to (7).
abbrev objects : List Object
objects =
    new_object 6 (vector_node [])
    ∷ new_object 5 (su_vector 2 6)
    ∷ white_object 7 other
    ∷ white_object 4 other
    ∷ white_object 3 (vector_node [])
    ∷ white_object 2 (vector_node (immediate ∷ object 4 ∷ []))
    ∷ white_object 1 (su_vector 2 3)
    ∷ []

abbrev heap : GcState
heap = record {
  objects = objects;
  gray_stack = [];
  num_objects = 7;
  stack = object 1 ∷ immediate ∷ object 5 ∷ [];
  globals = none;
}

abbrev Here : ℕ → Type 0
Here c = (o : Object) × (deref objects c ≡ ok o)

heap-Ready : Ready heap
unfolding children
heap-Ready = record {
  closed = λ p o e c i.
      In-All Here (children o.body) c
        (deref-All (λ x. All Here (children x.body)) objects p o
          (
            tt,
            (
              ((_, refl), ((_, refl), tt)),
              (tt, (tt, (tt, (((_, refl), tt), (((_, refl), ((_, refl), tt)), tt))))),
            ),
          )
          e)
        i;
  rooted = λ c i. In-All Here (roots heap) c ((_, refl), ((_, refl), tt)) i;
  unmarked = λ r o e.
      deref-All (λ x. (x.flags ≡ flag_trans) ⊎ (x.flags ≡ flag_white)) objects r o
        (inl refl, (inl refl, (inr refl, (inr refl, (inr refl, (inr refl, (inr refl, tt))))))) e;
  distinct = ground arith;
  counted = refl;
  done = refl;
}

su_gc_example : (s' : GcState) × (su_gc 0 heap ≡ ok s') × Collected heap s'
su_gc_example = su_gc-Collected 0 heap heap-Ready (omega arith)

-- Without the old vector on the stack, the node of the new one is freed.
abbrev lost_heap : GcState
lost_heap = record {
  objects = objects;
  gray_stack = [];
  num_objects = 7;
  stack = object 5 ∷ [];
  globals = none;
}

abbrev addresses_left : Run GcState → List ℕ
addresses_left (ok s) = addresses s.objects
addresses_left (raise e) = []
addresses_left fault = []

lost_node : addresses_left (su_gc 0 lost_heap) ≡ 6 ∷ 5 ∷ []
unfolding su_gc
lost_node = refl

kept_nodes : addresses_left (su_gc 0 heap) ≡ 6 ∷ 5 ∷ 4 ∷ 3 ∷ 2 ∷ 1 ∷ []
unfolding su_gc
kept_nodes = refl

gc_insert_object_example : Ready (gc_insert_object heap 8 (su_vector 2 6))
unfolding children
gc_insert_object_example =
    gc_insert_object-Ready heap 8 (su_vector 2 6) heap-Ready (omega arith) (ground arith)
      (λ c i. In-All Here (2 ∷ 6 ∷ []) c ((_, refl), ((_, refl), tt)) i)
