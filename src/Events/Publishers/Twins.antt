-- ===== src/Events/Publishers/Twins.antt =====
-- Rows of one event, before and after a mark.
use share_trip.Base.{◌≡◌, refl, sym, ◌∙◌, subst, List, [], ◌∷◌, arith, if◌then◌else◌, ◌==◌}
use mathlib.Core.List.{Memᴰ}
use share_trip.Domain.{OutboxEvent}
use share_trip.Repository.Outbox.{update_event}
use share_trip.Repository.Members.{update_event-origin, Mem-update_event}
use share_trip.Events.Publishers.{Mark, sent_at, failed_with, mark_id, mark_row, apply_marks}

-- Two rows of one event, whatever its status and attempts.
pub record Twins (e f : OutboxEvent) : Type 0 where
  pub same_id : f.id ≡ e.id
  pub same_payload : f.payload ≡ e.payload

Twins-refl : (e : OutboxEvent) → Twins e e
Twins-refl e = record { same_id = refl; same_payload = refl }

Twins-trans : {e f g : OutboxEvent} → Twins e f → Twins f g → Twins e g
Twins-trans a b = record {
  same_id = b.same_id ∙ a.same_id;
  same_payload = b.same_payload ∙ a.same_payload;
}

-- The same events, row by row.
pub record SameEvents (o o' : List OutboxEvent) : Type 0 where
  pub forth : (e : OutboxEvent) → Memᴰ e o → (f : OutboxEvent) × Memᴰ f o' × Twins e f
  pub back : (f : OutboxEvent) → Memᴰ f o' → (e : OutboxEvent) × Memᴰ e o × Twins e f

pub SameEvents-refl : (o : List OutboxEvent) → SameEvents o o
SameEvents-refl o = record {
  forth = λ e m. (e, m, Twins-refl e);
  back = λ e m. (e, m, Twins-refl e);
}

SameEvents-trans : {o p q : List OutboxEvent} → SameEvents o p → SameEvents p q → SameEvents o q
SameEvents-trans a b = record {
  forth =
      λ e m. let (f, n, t) = a.forth e m in let (g, k, u) = b.forth f n in (g, k, Twins-trans t u);
  back = λ g k. let (f, n, u) = b.back g k in let (e, m, t) = a.back f n in (e, m, Twins-trans t u);
}

mark_row-Twins : (mk : Mark) (e : OutboxEvent) → Twins e (mark_row mk e)
mark_row-Twins (sent_at id now) e = record { same_id = refl; same_payload = refl }
mark_row-Twins (failed_with id reason) e = record { same_id = refl; same_payload = refl }

abbrev pub marked : Mark → OutboxEvent → OutboxEvent
marked mk e = if e.id == mark_id mk then mark_row mk e else e

marked-Twins : (mk : Mark) (e : OutboxEvent) → Twins e (marked mk e)
marked-Twins mk e = record {
  same_id = let t = (mark_row-Twins mk e).same_id in ground arith;
  same_payload = let t = (mark_row-Twins mk e).same_payload in ground arith;
}

pub updated-Twins : (mk : Mark) (e r : OutboxEvent) → r ≡ marked mk e → Twins e r
updated-Twins mk e r q = subst (Twins e) (sym q) (marked-Twins mk e)

SameEvents-update_event :
    (mk : Mark) (o : List OutboxEvent) → SameEvents o (update_event (mark_id mk) (mark_row mk) o)
SameEvents-update_event mk o = record {
  forth = λ e m. (marked mk e, Mem-update_event (mark_id mk) (mark_row mk) o m, marked-Twins mk e);
  back = λ r n.
      let (e, m, q) = update_event-origin (mark_id mk) (mark_row mk) o n in
      (e, m, updated-Twins mk e r q);
}

pub apply_marks-SameEvents :
    (ms : List Mark) (o : List OutboxEvent) → SameEvents o (apply_marks ms o)
unfolding apply_marks
apply_marks-SameEvents [] o = SameEvents-refl o
apply_marks-SameEvents (mk ∷ ms) o =
    SameEvents-trans (SameEvents-update_event mk o)
      (apply_marks-SameEvents ms (update_event (mark_id mk) (mark_row mk) o))
