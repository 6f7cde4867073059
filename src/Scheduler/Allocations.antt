-- ===== src/Scheduler/Allocations.antt =====
-- What the plugin promises about the jobs of groups, as a system of steps: groups hold jobs, and jobs
-- are live or not. It says nothing of tables, answers, retries or errors.
pub mod Flight
use mathlib.Core.Option.{some_inj}
use flux_k8s.Base.{
  String, Bool, true, false, Option, none, some, ℤ, ◌≡◌, ◌≢◌, sym, ap, ◌∙◌, str-cases, ◌⊎◌, inl,
  inr,
}

pub record Allocations : Type 0 where
  pub held : String → Option ℤ
  pub live : ℤ → Bool

-- A group begins a new job, whatever it held before; a group's job is over, and it holds none; or
-- nothing changes.
pub data Step (a b : Allocations) : Type 0 where
  idle : ((g : String) → b.held g ≡ a.held g) → ((j : ℤ) → b.live j ≡ a.live j) → Step a b
  begin :
      (g : String) (j : ℤ)
      → a.live j ≡ false
      → b.held g ≡ some j
      → ((h : String) → h ≢ g → b.held h ≡ a.held h)
      → b.live j ≡ true
      → ((k : ℤ) → k ≢ j → b.live k ≡ a.live k)
      → Step a b
  finish :
      (g : String) (j : ℤ)
      → a.held g ≡ some j
      → b.held g ≡ none
      → ((h : String) → h ≢ g → b.held h ≡ a.held h)
      → b.live j ≡ false
      → ((k : ℤ) → k ≢ j → b.live k ≡ a.live k)
      → Step a b

-- Any number of steps.
pub data Runs (a : Allocations) : Allocations → Type 0 where
  none_yet : Runs a a
  and_then : (b c : Allocations) → Runs a b → Step b c → Runs a c

-- Every job that is held is live, and one group holds it.
pub record IsSound (a : Allocations) : Type 0 where
  pub held_is_live : (g : String) (j : ℤ) → a.held g ≡ some j → a.live j ≡ true
  pub held_once : (g h : String) (j : ℤ) → a.held g ≡ some j → a.held h ≡ some j → g ≡ h

pub none_ne_some : {A : Type 0} (a : A) → none ≢ some a
none_ne_some a e = cc

-- A job that is held differs from one that is not live.
held_apart :
    (a : Allocations)
    → IsSound a
    → (g : String) (i j : ℤ) → a.held g ≡ some i
    → a.live j ≡ false
    → i ≢ j
held_apart a s g i j e over same = cc (s.held_is_live g i e, over, ap a.live same)

-- Where a job that is held after a group has begun one comes from.
held_after_begin :
    (a b : Allocations) (g h : String) (j k : ℤ)
    → b.held g ≡ some j
    → ((i : String) → i ≢ g → b.held i ≡ a.held i)
    → b.held h ≡ some k
    → ((h ≡ g) × (k ≡ j)) ⊎ ((h ≢ g) × (a.held h ≡ some k))
held_after_begin a b g h j k holds others e = elim (str-cases h g) [
  | inl (same, _) ↦ inl (same, some_inj.0 (sym e ∙ ap b.held same ∙ holds))
  | inr (apart, _) ↦ inr (apart, sym (others h apart) ∙ e)
]

begin-IsSound :
    (a b : Allocations)
    → IsSound a
    → (g : String) (j : ℤ) → a.live j ≡ false
    → b.held g ≡ some j
    → ((h : String) → h ≢ g → b.held h ≡ a.held h)
    → b.live j ≡ true
    → ((k : ℤ) → k ≢ j → b.live k ≡ a.live k)
    → IsSound b
begin-IsSound a b s g j fresh holds others lives rest =
    let from =
      λ (h : String) (k : ℤ) (e : b.held h ≡ some k). held_after_begin a b g h j k holds others e in
    record {
      held_is_live = λ h k e. elim (from h k e) [
        | inl (_, same) ↦ ap b.live same ∙ lives
        | inr (_, before) ↦ rest k (held_apart a s h k j before fresh) ∙ s.held_is_live h k before
      ];
      held_once = λ h i k e f. elim (from h k e) [
        | inl (p, same) ↦ elim (from i k f) [
          | inl (q, _) ↦ p ∙ sym q
          | inr (_, before) ↦ absurd (held_apart a s i k j before fresh same)
        ]
        | inr (_, before) ↦ elim (from i k f) [
          | inl (_, same) ↦ absurd (held_apart a s h k j before fresh same)
          | inr (_, after) ↦ s.held_once h i k before after
        ]
      ];
    }

held_after_finish :
    (a b : Allocations) (g h : String) (k : ℤ)
    → b.held g ≡ none
    → ((i : String) → i ≢ g → b.held i ≡ a.held i)
    → b.held h ≡ some k
    → (h ≢ g) × (a.held h ≡ some k)
held_after_finish a b g h k holds others e = elim (str-cases h g) [
  | inl (same, _) ↦ absurd (none_ne_some k (sym holds ∙ sym (ap b.held same) ∙ e))
  | inr (apart, _) ↦ (apart, sym (others h apart) ∙ e)
]

-- The steps keep soundness.
Step-IsSound : (a b : Allocations) → Step a b → IsSound a → IsSound b
Step-IsSound a b (idle helds lives) s = record {
  held_is_live = λ g j e. lives j ∙ s.held_is_live g j (sym (helds g) ∙ e);
  held_once = λ g h j e f. s.held_once g h j (sym (helds g) ∙ e) (sym (helds h) ∙ f);
}
Step-IsSound a b (begin g j fresh holds others lives rest) s =
    begin-IsSound a b s g j fresh holds others lives rest
Step-IsSound a b (finish g j held freed others over rest) s =
    let from =
      λ (h : String) (k : ℤ) (e : b.held h ≡ some k). held_after_finish a b g h k freed others e in
    record {
      held_is_live = λ h k e.
          let (apart, before) = from h k e in
          rest k (λ same. apart (s.held_once h g k before (held ∙ ap some (sym same))))
          ∙ s.held_is_live h k before;
      held_once = λ h i k e f. s.held_once h i k (from h k e).1 (from i k f).1;
    }

pub Runs-IsSound : (a b : Allocations) → Runs a b → IsSound a → IsSound b
Runs-IsSound a _ none_yet s = s
Runs-IsSound a _ (and_then b c runs step) s = Step-IsSound b c step (Runs-IsSound a b runs s)
