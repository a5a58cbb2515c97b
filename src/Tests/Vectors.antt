-- ===== src/Tests/Vectors.antt =====
-- Native functions on vectors of src/vm/libseq.c, on a small machine.
use saurus.Base.{
  ℕ, ◌<◌, ◌≡◌, ◌⊎◌, inl, refl, true, List, [], ◌∷◌, ◌++◌, length, set, ok, raise, fault, pos,
  index_out_of_bounds, pop_empty_vector, arith,
}
use saurus.Tests.Machine.{platform, caller}
use saurus.Vector.{Vector}
use saurus.Vector.Index.{element}
use saurus.Vector.Shape.{flat, Represents}
use saurus.Vm.{Value, nil, number, object}
use saurus.Vm.NativePush.{native_vector_push-Represents, native_vector_push-fault}
use saurus.Vm.Natives.{native_vector_push, native_vector_set, native_vector_pop}
use saurus.Vm.NativeVectors.{native_vector_set-element, native_vector_pop-Represents}
use saurus.Vm.State.{Machine}

abbrev two : Vector (Value ℕ)
two = record { cnt = 2; depth = 0; root = []; tail = nil ∷ number 7 ∷ [] }

two-Represents : Represents two (nil ∷ number 7 ∷ [])
unfolding flat
two-Represents = record { count = refl; contents = refl; tail_fits = omega arith; shape = inl refl }

abbrev asking : Machine ℕ
asking = record caller { heap = record caller.heap { vectors = two ∷ [] } }

-- (vector-push v 5)
abbrev pushing : Machine ℕ
pushing = record asking { narg = 2; stack = number 5 ∷ object 8 0 ∷ nil ∷ [] }

native_vector_push-Represents_example :
    (v : Vector (Value ℕ)) × (native_vector_push pushing 2
      ≡ ok (
        record pushing {
          stack = object 8 1 ∷ pushing.stack;
          heap = record pushing.heap { vectors = two ∷ v ∷ [] };
        },
        true,
      ))
    × Represents v (nil ∷ number 7 ∷ number 5 ∷ [])
native_vector_push-Represents_example =
    native_vector_push-Represents pushing 0 two (nil ∷ number 7 ∷ []) refl two-Represents (nil ∷ [])
      (number 5) refl refl (omega arith) (omega arith)

-- (vector-push v 5 6)
abbrev pushing_more : Machine ℕ
pushing_more = record asking { narg = 3; stack = number 6 ∷ number 5 ∷ object 8 0 ∷ nil ∷ [] }

native_vector_push-fault_example : native_vector_push pushing_more 3 ≡ fault
native_vector_push-fault_example =
    native_vector_push-fault pushing_more 0 (number 6 ∷ number 5 ∷ []) (nil ∷ []) refl refl
      (omega arith)

-- (vector-set v 1 5)
abbrev setting : Machine ℕ
setting = record asking { narg = 3; stack = number 5 ∷ number 1 ∷ object 8 0 ∷ nil ∷ [] }

native_vector_set-element_example :
    ((element {A = Value ℕ} (nil ∷ number 7 ∷ []) (pos 1) ≡ raise index_out_of_bounds)
      × (native_vector_set platform setting 3 ≡ raise index_out_of_bounds))
    ⊎ ((j : ℕ) × (pos 1 ≡ pos j)
        × (j < 2)
        × (v : Vector (Value ℕ)) × (native_vector_set platform setting 3
            ≡ ok (
              record setting {
                stack = object 8 1 ∷ setting.stack;
                heap = record setting.heap { vectors = two ∷ v ∷ [] };
              },
              true,
            ))
        × Represents v (set (nil ∷ number 7 ∷ []) j (number 5)))
native_vector_set-element_example =
    native_vector_set-element platform setting 0 two (nil ∷ number 7 ∷ []) refl two-Represents 1
      (pos 1) refl (nil ∷ []) (number 5) refl refl (omega arith)

-- (vector-pop v 1)
abbrev popping : Machine ℕ
popping = record asking { narg = 2; stack = number 1 ∷ object 8 0 ∷ nil ∷ [] }

native_vector_pop-Represents_example :
    ((◌≡◌ {A = ℕ} 1 0)
      × (native_vector_pop platform popping 2
          ≡ ok (record popping { stack = object 8 0 ∷ popping.stack }, true)))
    ⊎ ((2 < 1) × (native_vector_pop platform popping 2 ≡ raise pop_empty_vector))
    ⊎ ((zs dropped : List (Value ℕ)) × (nil ∷ number 7 ∷ [] ≡ zs ++ dropped)
        × (length dropped ≡ 1)
        × (0 < 1)
        × (v : Vector (Value ℕ)) × (native_vector_pop platform popping 2
            ≡ ok (
              record popping {
                stack = object 8 1 ∷ popping.stack;
                heap = record popping.heap { vectors = two ∷ v ∷ [] };
              },
              true,
            ))
        × Represents v zs)
native_vector_pop-Represents_example =
    native_vector_pop-Represents platform popping 0 two (nil ∷ number 7 ∷ []) refl two-Represents 1
      (pos 1) refl (nil ∷ []) refl refl (omega arith)
