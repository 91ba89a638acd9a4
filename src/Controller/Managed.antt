-- ===== src/Controller/Managed.antt =====
-- pkg/controller/controllermanager.go: one loop at most, and nothing left open after it.
use mathlib.Core.List.{Memᴰ}
use kubemate.Base.{
  ◌+◌, ◌≡◌, ◌⊎◌, refl, sym, ap, ◌∙◌, inl, inr, Bool, true, false, List, [], ◌∷◌, ◌++◌, ◌&&◌, select,
  All, All-map, All-select, Option-cases, Bool-cases, arith,
}
use kubemate.Controller.{
  Part, Manager, register_reconciler, add_schemes, start, Attempt, set_up, run_controller_manager,
  is_other, close_reconcilers, stop, Call, registers, starts, stops, attempts, call, run,
}

-- Every reconciler that is open is one of these.
abbrev AreOf : List Part → List Part → Type 0
AreOf ps opened = All (λ q. Memᴰ q ps) opened

-- Of what is open nothing can be closed.
abbrev pub AllClosed : List Part → Type 0
AllClosed opened = All (λ (q : Part). q.is_closer ≡ false) opened

-- The loop runs once, as long as it can be cancelled; while it does not run, every reconciler that can be
-- closed is closed.
pub data IsManaged (m : Manager) : Type 0 where
  busy : m.cancelable ≡ true → m.loops ≡ 1 → AreOf m.parts m.open_parts → IsManaged m
  idle :
      m.cancelable ≡ false
      → m.loops ≡ 0
      → AreOf m.parts m.open_parts
      → AllClosed m.open_parts
      → IsManaged m

Memᴰ-append : (q : Part) (ps qs : List Part) → Memᴰ q ps → Memᴰ q (ps ++ qs)
Memᴰ-append q [] qs d = elim d [ ]
Memᴰ-append q (p ∷ ps) qs (Memᴰ.head e) = Memᴰ.head e
Memᴰ-append q (p ∷ ps) qs (Memᴰ.tail d) = Memᴰ.tail (Memᴰ-append q ps qs d)

set_up-AreOf :
    (f : Part → Bool) (all ps opened : List Part)
    → ((q : Part) → Memᴰ q ps → Memᴰ q all)
    → AreOf all opened
    → AreOf all (set_up f ps opened)
unfolding set_up
set_up-AreOf f all [] opened within h = h
set_up-AreOf f all (p ∷ ps) opened within h = elim (Bool-cases (f p)) [
  | inl e ↦
      rw (set_up, e)
        (set_up-AreOf f all ps (p ∷ opened) (λ q d. within q (Memᴰ.tail d))
          (within p (Memᴰ.head refl), h))
  | inr e ↦ rw (set_up, e) h
]

-- An open reconciler cannot be closed, or its turn is still to come.
abbrev IsLeft : List Part → List Part → Part → Type 0
IsLeft all ps q = Memᴰ q all × ((q.is_closer ≡ false) ⊎ Memᴰ q ps)

other-IsLeft :
    (all ps : List Part) (p q : Part)
    → is_other p q ≡ true
    → IsLeft all (p ∷ ps) q
    → IsLeft all ps q
other-IsLeft all ps p q o (m, inl c) = (m, inl c)
other-IsLeft all ps p q o (m, inr (Memᴰ.tail d)) = (m, inr d)
other-IsLeft all ps p q o (m, inr (Memᴰ.head e)) =
    let same : is_other p p ≡ true = ap (λ x. is_other p x) (sym e) ∙ o in absurd (ground arith)

kept-IsLeft :
    (all ps : List Part) (p q : Part)
    → p.is_closer ≡ false
    → IsLeft all (p ∷ ps) q
    → IsLeft all ps q
kept-IsLeft all ps p q c (m, inl c') = (m, inl c')
kept-IsLeft all ps p q c (m, inr (Memᴰ.tail d)) = (m, inr d)
kept-IsLeft all ps p q c (m, inr (Memᴰ.head e)) = (m, inl (ap (λ (x : Part). x.is_closer) e ∙ c))

close_reconcilers-IsLeft :
    (all ps opened : List Part)
    → All (IsLeft all ps) opened
    → All (IsLeft all []) (close_reconcilers ps opened)
unfolding close_reconcilers
close_reconcilers-IsLeft all [] opened h = h
close_reconcilers-IsLeft all (p ∷ ps) opened h = elim (Bool-cases p.is_closer) [
  | inl e ↦
      rw (close_reconcilers, e)
        (close_reconcilers-IsLeft all ps (select (is_other p) opened) (
          All-select (IsLeft all (p ∷ ps)) (IsLeft all ps) (is_other p) opened
            (λ q o x. other-IsLeft all ps p q o x) h))
  | inr e ↦
      rw (close_reconcilers, e)
        (close_reconcilers-IsLeft all ps opened (
          All-map (IsLeft all (p ∷ ps)) (IsLeft all ps) opened (λ q x. kept-IsLeft all ps p q e x)
            h))
]

IsLeft-closed : (all : List Part) (q : Part) → IsLeft all [] q → q.is_closer ≡ false
IsLeft-closed all q (m, inl c) = c
IsLeft-closed all q (m, inr d) = elim d [ ]

register_reconciler-IsManaged :
    (m : Manager) (p : Part) → IsManaged m → IsManaged (register_reconciler m p)
register_reconciler-IsManaged m p (busy c l o) = busy c l (
    All-map (λ q. Memᴰ q m.parts) (λ q. Memᴰ q (m.parts ++ p ∷ [])) m.open_parts
      (λ q d. Memᴰ-append q m.parts (p ∷ []) d) o)
register_reconciler-IsManaged m p (idle c l o a) =
    idle c l
      (All-map (λ q. Memᴰ q m.parts) (λ q. Memᴰ q (m.parts ++ p ∷ [])) m.open_parts
        (λ q d. Memᴰ-append q m.parts (p ∷ []) d) o)
      a

pub start-IsManaged : (m : Manager) → IsManaged m → IsManaged (start m).0
unfolding start
start-IsManaged m (busy c l o) = rw (start, c) (busy refl l o)
start-IsManaged m (idle c l o a) = elim (Option-cases (add_schemes m.parts)) [
  | inl e ↦ rw (start, c, e) (busy refl (ap (λ n. n + 1) l) o)
  | inr (x, e) ↦ rw (start, c, e) (idle c l o a)
]

pub run_controller_manager-IsManaged :
    (m : Manager) (a : Attempt) → IsManaged m → IsManaged (run_controller_manager m a)
unfolding run_controller_manager
run_controller_manager-IsManaged m a (idle c l o s) =
    rw (run_controller_manager, c) (idle refl l o s)
run_controller_manager-IsManaged m a (busy c l o) =
    elim (Bool-cases (a.has_config && a.has_manager)) [
      | inl e ↦
          rw (run_controller_manager, c, e)
            (busy refl l (set_up-AreOf a.sets_up m.parts m.parts m.open_parts (λ q d. d) o))
      | inr e ↦ rw (run_controller_manager, c, e) (busy refl l o)
    ]

pub stop-IsManaged : (m : Manager) → IsManaged m → IsManaged (stop m)
unfolding stop
stop-IsManaged m (idle c l o a) = rw (stop, c) (idle refl l o a)
stop-IsManaged m (busy c l o) =
    let left =
      close_reconcilers-IsLeft m.parts m.parts m.open_parts (
        All-map (λ q. Memᴰ q m.parts) (IsLeft m.parts m.parts) m.open_parts (λ q d. (d, inr d))
          o) in
    let opened = close_reconcilers m.parts m.open_parts in
    rw (stop, c)
      (idle refl refl (All-map (IsLeft m.parts []) (λ q. Memᴰ q m.parts) opened (λ q x. x.0) left) (
        All-map (IsLeft m.parts []) (λ (q : Part). q.is_closer ≡ false) opened
          (λ q x. IsLeft-closed m.parts q x) left))

-- A stopped manager runs no loop.
pub stop_loops : (m : Manager) → IsManaged m → (stop m).loops ≡ 0
unfolding stop
stop_loops m (idle c l o a) = rw (stop, c) l
stop_loops m (busy c l o) = rw (stop, c) refl

pub run_controller_manager_loops :
    (m : Manager) (a : Attempt) → (run_controller_manager m a).loops ≡ m.loops
unfolding run_controller_manager
run_controller_manager_loops m a = ground arith

call-IsManaged : (m : Manager) (c : Call) → IsManaged m → IsManaged (call m c)
call-IsManaged m (registers p) h = register_reconciler-IsManaged m p h
call-IsManaged m starts h = start-IsManaged m h
call-IsManaged m stops h = stop-IsManaged m h
call-IsManaged m (attempts a) h = run_controller_manager-IsManaged m a h

-- However registrations, starts, stops and attempts of the loop follow one another, and whichever of
-- their steps fail: the loop runs at most once, it runs as long as it can be cancelled, and while it does
-- not run, every reconciler that was set up and can be closed has been closed.
pub run-IsManaged : (m : Manager) (cs : List Call) → IsManaged m → IsManaged (run m cs)
run-IsManaged m [] h = h
run-IsManaged m (c ∷ cs) h = run-IsManaged (call m c) cs (call-IsManaged m c h)
