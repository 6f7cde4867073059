-- ===== src/Scheduler/Allocations/Flight.antt =====
-- A job that is live and that no group holds yet, between the answer of the sidecar and the table.
use flux_k8s.Base.{String, true, false, some, ℤ, ◌≡◌, ◌≢◌, sym, ap, ◌∙◌, refl, str-cases, inl, inr}
use flux_k8s.Scheduler.Allocations.{
  Allocations, Step, idle, begin, finish, Runs, none_yet, and_then, IsSound, held_after_begin,
  held_apart,
}

pub record IsInFlight (a : Allocations) (j : ℤ) : Type 0 where
  pub is_live : a.live j ≡ true
  pub unheld : (g : String) → a.held g ≢ some j

-- The steps leave it in flight: a new job is another one, and only jobs that are held end.
Step-IsInFlight : (a b : Allocations) (j : ℤ) → Step a b → IsInFlight a j → IsInFlight b j
Step-IsInFlight a b j (idle helds lives) f = record {
  is_live = lives j ∙ f.is_live;
  unheld = λ g e. f.unheld g (sym (helds g) ∙ e);
}
Step-IsInFlight a b j (begin g i fresh holds others lives rest) f =
    let apart : j ≢ i = λ e. cc (fresh, f.is_live, ap a.live e) in
    record {
      is_live = rest j apart ∙ f.is_live;
      unheld = λ h e. elim (held_after_begin a b g h i j holds others e) [
        | inl (_, same) ↦ apart same
        | inr (_, before) ↦ f.unheld h before
      ];
    }
Step-IsInFlight a b j (finish g i held freed others over rest) f = record {
  is_live = rest j (λ e. f.unheld g (held ∙ ap some (sym e))) ∙ f.is_live;
  unheld = λ h e. elim (str-cases h g) [
    | inl (same, _) ↦ cc (freed, ap b.held same, e)
    | inr (apart, _) ↦ f.unheld h (sym (others h apart) ∙ e)
  ];
}

pub Runs-IsInFlight : (a b : Allocations) (j : ℤ) → Runs a b → IsInFlight a j → IsInFlight b j
Runs-IsInFlight a _ j none_yet f = f
Runs-IsInFlight a _ j (and_then b c runs step) f =
    Step-IsInFlight b c j step (Runs-IsInFlight a b j runs f)

-- A job begins that no group holds yet.
pub launch-IsSound :
    (a b : Allocations) (j : ℤ)
    → IsSound a
    → a.live j ≡ false
    → ((g : String) → b.held g ≡ a.held g)
    → b.live j ≡ true
    → ((k : ℤ) → k ≢ j → b.live k ≡ a.live k)
    → IsSound b × IsInFlight b j
launch-IsSound a b j s fresh helds lives rest = (
  record {
    held_is_live = λ g k e.
        let before = sym (helds g) ∙ e in
        rest k (held_apart a s g k j before fresh) ∙ s.held_is_live g k before;
    held_once = λ g h k e f. s.held_once g h k (sym (helds g) ∙ e) (sym (helds h) ∙ f);
  },
  record { is_live = lives; unheld = λ g e. held_apart a s g j j (sym (helds g) ∙ e) fresh refl },
)

-- A group takes the job in flight, whatever it held before.
pub adopt-IsSound :
    (a b : Allocations) (g : String) (j : ℤ)
    → IsSound a
    → IsInFlight a j
    → b.held g ≡ some j
    → ((h : String) → h ≢ g → b.held h ≡ a.held h)
    → ((k : ℤ) → b.live k ≡ a.live k)
    → IsSound b
adopt-IsSound a b g j s f holds others lives =
    let from =
      λ (h : String) (k : ℤ) (e : b.held h ≡ some k). held_after_begin a b g h j k holds others e in
    record {
      held_is_live = λ h k e. lives k ∙ elim (from h k e) [
        | inl (_, same) ↦ ap a.live same ∙ f.is_live
        | inr (_, before) ↦ s.held_is_live h k before
      ];
      held_once = λ h i k e e2. elim (from h k e) [
        | inl (p, same) ↦ elim (from i k e2) [
          | inl (q, _) ↦ p ∙ sym q
          | inr (_, before) ↦ absurd (f.unheld i (before ∙ ap some same))
        ]
        | inr (_, before) ↦ elim (from i k e2) [
          | inl (_, same) ↦ absurd (f.unheld h (before ∙ ap some same))
          | inr (_, after) ↦ s.held_once h i k before after
        ]
      ];
    }

-- Another job that begins leaves it in flight.
pub launch-IsInFlight :
    (a b : Allocations) (i j : ℤ)
    → IsInFlight a j
    → a.live i ≡ false
    → ((g : String) → b.held g ≡ a.held g)
    → ((k : ℤ) → k ≢ i → b.live k ≡ a.live k)
    → IsInFlight b j × (i ≢ j)
launch-IsInFlight a b i j f fresh helds rest =
    let apart : i ≢ j = λ e. cc (fresh, f.is_live, ap a.live e) in
    (
      record {
        is_live = rest j (λ e. apart (sym e)) ∙ f.is_live;
        unheld = λ g e. f.unheld g (sym (helds g) ∙ e);
      },
      apart,
    )

-- So does a group that takes another job.
pub adopt-IsInFlight :
    (a b : Allocations) (g : String) (i j : ℤ)
    → IsInFlight a j
    → i ≢ j
    → b.held g ≡ some i
    → ((h : String) → h ≢ g → b.held h ≡ a.held h)
    → ((k : ℤ) → b.live k ≡ a.live k)
    → IsInFlight b j
adopt-IsInFlight a b g i j f apart holds others lives = record {
  is_live = lives j ∙ f.is_live;
  unheld = λ h e. elim (held_after_begin a b g h i j holds others e) [
    | inl (_, same) ↦ apart (sym same)
    | inr (_, before) ↦ f.unheld h before
  ];
}
