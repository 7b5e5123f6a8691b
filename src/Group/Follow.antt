-- ===== src/Group/Follow.antt =====
-- group.rs: instances that follow one another, and whether they start with the delimiter.
use refix.Base.{
  ◌<◌, ◌≡◌, refl, sym, ◌∙◌, ◌≢◌, Bool, true, Option, none, some, List, [], ◌∷◌, ◌++◌, arith, ◌==◌,
  all,
}
use refix.Tokenizer.{RawMessage}
use refix.Message.{Slot, Scope, narrow, tag_at}
use refix.Group.{GroupTable, delimiter, Anomaly, closed}

-- The instances lie one behind the other from slot `from` to slot `to`, none empty.
pub data Follow (m : RawMessage) : Slot → List Scope → Slot → Type 0 where
  no_more : {from to : Slot} → from ≡ to → Follow m from [] to
  then :
      {from to : Slot} {s : Scope} {instances : List Scope}
      → s.message ≡ m
      → s.start ≡ from
      → s.start < s.end
      → Follow m s.end instances to
      → Follow m from (s ∷ instances) to

pub Follow-append :
    {m : RawMessage} {from mid : Slot} (instances : List Scope) (s : Scope)
    → Follow m from instances mid
    → s.message ≡ m
    → s.start ≡ mid
    → s.start < s.end
    → Follow m from (instances ++ s ∷ []) s.end
Follow-append [] s (no_more e) same starts lt = then same (starts ∙ sym e) lt (no_more refl)
Follow-append (x ∷ xs) s (then m e l rest) same starts lt =
    then m e l (Follow-append xs s rest same starts lt)

-- The instances that are closed, and the one that is open, behind slot `count`.
pub data Kept (m : RawMessage) (count : Slot) : Option Slot → List Scope → Slot → Type 0 where
  none_yet : {slot : Slot} → Kept m count none [] slot
  one_open :
      {slot : Slot} {instances : List Scope} (first start : Slot)
      → count < first
      → Follow m first instances start
      → start < slot
      → Kept m count (some start) instances slot

-- Whether an instance starts with the group's delimiter.
abbrev pub begins : Scope → GroupTable → Scope → Bool
begins s t instance_scope = tag_at s instance_scope.start == delimiter t

abbrev pub opens_well : Scope → GroupTable → Option Slot → Bool
opens_well s t none = true
opens_well s t (some start) = tag_at s start == delimiter t

abbrev pub AllDelimited : Scope → GroupTable → List Scope → Option Slot → Type 0
AllDelimited s t instances start =
    (all (begins s t) instances ≡ true) × (opens_well s t start ≡ true)

pub all-append :
    (p : Scope → Bool) (xs ys : List Scope)
    → all p xs ≡ true
    → all p ys ≡ true
    → all p (xs ++ ys) ≡ true
unfolding all
all-append p [] ys h k = k
all-append p (x ∷ xs) ys h k = ground (arith, all-append p xs ys)

pub closed-begins :
    (s : Scope) (t : GroupTable) (start : Option Slot) (slot : Slot) (instances : List Scope)
    → AllDelimited s t instances start
    → all (begins s t) (closed s start slot instances) ≡ true
closed-begins s t none slot instances h = h.0
closed-begins s t (some start) slot instances h =
    all-append (begins s t) instances (narrow s start slot ∷ []) h.0
      (unfold all in ground (arith, h.1))

pub all-append_split :
    (p : Scope → Bool) (xs ys : List Scope)
    → all p (xs ++ ys) ≡ true
    → (all p xs ≡ true) × (all p ys ≡ true)
unfolding all
all-append_split p [] ys h = (refl, h)
all-append_split p (x ∷ xs) ys h = ground (arith, all-append_split p xs ys)

pub all_single : (p : Scope → Bool) (x : Scope) → all p (x ∷ []) ≡ true → p x ≡ true
unfolding all
all_single p x h = ground arith

pub closed-begins-split :
    (s : Scope) (t : GroupTable) (start : Option Slot) (slot : Slot) (instances : List Scope)
    → all (begins s t) (closed s start slot instances) ≡ true
    → AllDelimited s t instances start
closed-begins-split s t none slot instances h = (h, refl)
closed-begins-split s t (some start) slot instances h =
    let (before, last) = all-append_split (begins s t) instances (narrow s start slot ∷ []) h in
    (before, all_single (begins s t) (narrow s start slot) last)

pub append-not_nil : (xs : List Anomaly) (a : Anomaly) → xs ++ a ∷ [] ≢ []
append-not_nil [] a = λ e. cc
append-not_nil (x ∷ xs) a = λ e. cc
