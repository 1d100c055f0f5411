-- ===== src/Checker/Growth.antt =====
-- What the steps of the analysis do to the queue, and that no finding is ever removed.
use mathlib.Core.Path.{subst}
use binary_kernel_code_mappi.Prelude.{
  ◌≡◌, ◌≢◌, refl, sym, ◌∙◌, ◌||◌, Bool, true, false, List, [], ◌∷◌, ◌++◌, Text, contains,
  if◌then◌else◌, Bool-cases, inl, inr, Result, ok, err, ◌>>=◌, >>=-eq-ok,
}
use binary_kernel_code_mappi.Checker.{ElfObj, is_named}
use binary_kernel_code_mappi.Checker.State.{
  State, HardFail, Reason, queue_func, record_missing_dep, record_unanalyzable, add_hard_fail,
}
use binary_kernel_code_mappi.Checker.Insns.{CheckError}

-- A name goes to the end of the queue, unless it was visited or waits already.
abbrev pub enqueue : Text → List Text → List Text → List Text
enqueue name visited queue =
    if is_named name
    then (if contains visited name || contains queue name then queue else queue ++ name ∷ [])
    else queue

abbrev pub enqueue_all : List Text → List Text → List Text → List Text
enqueue_all [] visited queue = queue
enqueue_all (name ∷ names) visited queue = enqueue_all names visited (enqueue name visited queue)

-- The step from `s` to `t` queues `names` in order, and removes no finding.
pub record Effect (names : List Text) (s t : State) : Type 0 where
  pub visited : t.visited ≡ s.visited
  pub queue : t.queue ≡ enqueue_all names s.visited s.queue
  pub fails : t.hard_fails ≡ [] → s.hard_fails ≡ []
  pub missing : t.missing_deps ≡ [] → s.missing_deps ≡ []
  pub unanalyzable : t.unanalyzable_funcs ≡ [] → s.unanalyzable_funcs ≡ []

-- Where it returns.
abbrev pub Gives : List Text → State → Result CheckError State → Type 0
Gives names s r = (t : State) → r ≡ ok t → Effect names s t

pub append-ne-nil {ℓ} : {A : Type ℓ} (xs : List A) (x : A) → xs ++ x ∷ [] ≢ []
append-ne-nil [] x h = cc
append-ne-nil (y ∷ xs) x h = cc

enqueue_all-append :
    (ns ms visited queue : List Text)
    → enqueue_all (ns ++ ms) visited queue ≡ enqueue_all ms visited (enqueue_all ns visited queue)
enqueue_all-append [] ms visited queue = refl
enqueue_all-append (n ∷ ns) ms visited queue =
    enqueue_all-append ns ms visited (enqueue n visited queue)

-- A step that leaves the queue and the findings.
pub Effect-same :
    {s t : State}
    → t.visited ≡ s.visited
    → t.queue ≡ s.queue
    → t.hard_fails ≡ s.hard_fails
    → t.missing_deps ≡ s.missing_deps
    → t.unanalyzable_funcs ≡ s.unanalyzable_funcs
    → Effect [] s t
Effect-same visited queue fails missing unanalyzable = record {
  visited = visited;
  queue = queue;
  fails = λ h. sym fails ∙ h;
  missing = λ h. sym missing ∙ h;
  unanalyzable = λ h. sym unanalyzable ∙ h;
}

pub Effect-nil : (s : State) → Effect [] s s
Effect-nil s = Effect-same refl refl refl refl refl

pub Effect-append :
    (ns ms : List Text) {s t u : State} → Effect ns s t → Effect ms t u → Effect (ns ++ ms) s u
Effect-append ns ms {s} a b = record {
  visited = b.visited ∙ a.visited;
  queue = b.queue ∙ rw (a.visited, a.queue) (sym (enqueue_all-append ns ms s.visited s.queue));
  fails = λ h. a.fails (b.fails h);
  missing = λ h. a.missing (b.missing h);
  unanalyzable = λ h. a.unanalyzable (b.unanalyzable h);
}

pub Effect-queue_func : (name : Text) (s : State) → Effect (name ∷ []) s (queue_func name s)
unfolding queue_func
Effect-queue_func name s = elim (Bool-cases (is_named name)) [
  | inr unnamed ↦ rw unnamed (record {
    visited = refl;
    queue = rw unnamed refl;
    fails = λ h. h;
    missing = λ h. h;
    unanalyzable = λ h. h;
  })
  | inl named ↦ elim (Bool-cases (contains s.visited name || contains s.queue name)) [
    | inl old ↦
        rw (named, old)
          (record {
            visited = refl;
            queue = rw (named, old) refl;
            fails = λ h. h;
            missing = λ h. h;
            unanalyzable = λ h. h;
          })
    | inr new ↦
        rw (named, new)
          (record {
            visited = refl;
            queue = rw (named, new) refl;
            fails = λ h. h;
            missing = λ h. h;
            unanalyzable = λ h. h;
          })
  ]
]

pub Effect-record_unanalyzable :
    (obj : ElfObj) (name : Text) (reason : Reason) (s : State)
    → Effect [] s (record_unanalyzable obj name reason s)
unfolding record_unanalyzable
Effect-record_unanalyzable obj name reason s = record {
  visited = refl;
  queue = refl;
  fails = λ h. h;
  missing = λ h. h;
  unanalyzable = λ h. absurd (append-ne-nil s.unanalyzable_funcs _ h);
}

pub Effect-add_hard_fail : (fail : HardFail) (s : State) → Effect [] s (add_hard_fail fail s)
unfolding add_hard_fail
Effect-add_hard_fail fail s = record {
  visited = refl;
  queue = refl;
  fails = λ h. absurd (append-ne-nil s.hard_fails fail h);
  missing = λ h. h;
  unanalyzable = λ h. h;
}

pub Effect-record_missing_dep : (name : Text) (s : State) → Effect [] s (record_missing_dep name s)
unfolding record_missing_dep
Effect-record_missing_dep name s = record {
  visited = refl;
  queue = refl;
  fails = λ h. h;
  missing = λ h. elim (Bool-cases (contains s.missing_deps name)) [
    | inl old ↦ rw old at h
    | inr new ↦ let bad : name ∷ s.missing_deps ≡ [] = rw new at h in cc
  ];
  unanalyzable = λ h. h;
}

pub Gives-ok : (names : List Text) (s u : State) → Effect names s u → Gives names s (ok u)
Gives-ok names s u eff t e = let same : u ≡ t = cc in subst (Effect names s) same eff

pub Gives-if :
    (b : Bool) {s : State} {ns ms : List Text} {x y : Result CheckError State}
    → Gives ns s x
    → Gives ms s y
    → Gives (if b then ns else ms) s (if b then x else y)
Gives-if true gx gy = gx
Gives-if false gx gy = gy

-- An error gives nothing, and what a guard lets through is what the rest gives.
pub Gives-guard :
    (b : Bool) {s : State} {ns : List Text} {x : Result CheckError State} (error : CheckError)
    → Gives ns s x
    → Gives ns s (if b then err error else x)
Gives-guard true error gx t h = cc
Gives-guard false error gx t h = gx t h

pub Effect-if :
    (b : Bool) {s x y : State} {ns ms : List Text}
    → Effect ns s x
    → Effect ms s y
    → Effect (if b then ns else ms) s (if b then x else y)
Effect-if true ex ey = ex
Effect-if false ex ey = ey

-- One step and then the next.
pub Gives-append :
    (ns ms : List Text) (s : State) (first : Result CheckError State)
    (k : State → Result CheckError State)
    → Gives ns s first
    → ((t : State) → Gives ms t (k t))
    → Gives (ns ++ ms) s (first >>= k)
Gives-append ns ms s first k gives next u e =
    let (t, before, after) = >>=-eq-ok first k e in
    Effect-append ns ms (gives t before) (next t u after)
