-- ===== src/Poker/Log/Step.antt =====
-- The event log under `emit` of internal/poker/engine/engine.go, and under chains of steps.
use momiao.Base.{
  ℕ, ◌+◌, ◌≡◌, refl, sym, ◌∙◌, ap, subst, List, [], ◌∷◌, ◌++◌, append-nil, append_assoc, length,
  length-append, arith,
}
use momiao.Poker.Types.{Time, Event, State}
use momiao.Poker.Table.{emit}
use momiao.Poker.Log.{Numbered, Extends}

Numbered-append :
    (i : ℕ) (es : List Event) (e : Event)
    → e.sequence ≡ i + length es + 1
    → e.version ≡ i + length es + 1
    → Numbered i es
    → Numbered i (es ++ e ∷ [])
Numbered-append i [] e h k n = (omega arith, omega arith, tt)
Numbered-append i (x ∷ es) e h k n =
    (n.0, n.1, Numbered-append (i + 1) es e (omega arith) (omega arith) n.2)

-- A step that leaves the log and the frame alone.
pub Extends-same :
    {s t : State}
    → t.config ≡ s.config
    → t.receipts ≡ s.receipts
    → t.initial_total ≡ s.initial_total
    → t.version ≡ s.version
    → t.events ≡ s.events
    → Extends s t
Extends-same {s} {t} c r i v e = record {
  config = c;
  receipts = r;
  initial_total = i;
  logged = λ l. (v ∙ l.0 ∙ ap length (sym e), subst (Numbered 0) (sym e) l.1);
  grown = ([], e ∙ sym (append-nil s.events));
}

pub Extends-trans : {s t u : State} → Extends s t → Extends t u → Extends s u
Extends-trans {s} {t} {u} p q = record {
  config = q.config ∙ p.config;
  receipts = q.receipts ∙ p.receipts;
  initial_total = q.initial_total ∙ p.initial_total;
  logged = λ l. q.logged (p.logged l);
  grown = (
    p.grown.0 ++ q.grown.0,
    q.grown.1
        ∙ ap (λ (es : List Event). es ++ q.grown.0) p.grown.1
        ∙ append_assoc s.events p.grown.0 q.grown.0,
  );
}

-- A step that appends one event with the next number.
pub Extends-event :
    {s t : State} (e : Event)
    → t.config ≡ s.config
    → t.receipts ≡ s.receipts
    → t.initial_total ≡ s.initial_total
    → t.version ≡ s.version + 1
    → t.events ≡ s.events ++ e ∷ []
    → e.sequence ≡ length s.events + 1
    → e.version ≡ s.version + 1
    → Extends s t
Extends-event {s} {t} e c r i v g n m = record {
  config = c;
  receipts = r;
  initial_total = i;
  logged = λ l. (
    omega (arith, l.0, ap length g, length-append s.events (e ∷ [])),
    subst (Numbered 0) (sym g)
        (Numbered-append 0 s.events e (omega arith) (omega (arith, l.0)) l.1),
  );
  grown = (e ∷ [], g);
}

pub emit-Extends : (e : Event) (now : Time) (s : State) → Extends s (emit e now s)
unfolding emit
emit-Extends e now s = Extends-event _ refl refl refl refl refl refl refl
