-- ===== src/Presence/Examples.antt =====
-- Tests of the registry, and its theorems at concrete inputs.
use codex_commons.Prelude.{◌≡◌, true, some, List, [], ◌∷◌, arith, refl, map}
use codex_commons.Prelude.Tests.{str_eq}
use codex_commons.Prelude.Table.{lookup, put}
use codex_commons.Prelude.Text.{str_ltb}
use codex_commons.Prelude.Int.{pos, ◌+ℤ◌}
use codex_commons.Presence.{
  Registry, Session, Snapshot, new_registry, connect, disconnect, lease_execution, get, list,
  snapshot, selects, collect, sort_by_session, insert_by_session,
}
use codex_commons.Presence.Trace.{
  Op, connect_op, disconnect_op, step, steps, IsKeyed, steps-IsKeyed,
}
use codex_commons.Presence.Leases.{lease_kept, ShowsLease}
use codex_commons.Presence.Listing.{IsSorted, find, shown, list_agrees}

abbrev plum : Session
plum = record { id = "S-PLUM-7"; actor = "a"; host = "plumbob"; project = "commons-lab" }

abbrev desk : Session
desk = record { id = "S-DESK-2"; actor = "a"; host = "studio"; project = "commons-lab" }

abbrev calls : List Op
calls = connect_op (pos 5) plum ∷ connect_op (pos 6) desk ∷ disconnect_op (pos 7) "S-PLUM-7" ∷ []

abbrev registry : Registry
registry = steps calls new_registry

listed_in_order :
    map (λ (x : Snapshot). x.session) (list (pos 9) "commons-lab" registry)
    ≡ "S-DESK-2" ∷ "S-PLUM-7" ∷ []
unfolding list collect sort_by_session insert_by_session snapshot selects steps step connect
    disconnect lookup put str_eq str_ltb
listed_in_order = refl

list_agrees_example :
    IsSorted (list (pos 9) "commons-lab" registry)
    × (find "S-DESK-2" (list (pos 9) "commons-lab" registry)
        ≡ shown (pos 9) "commons-lab" (lookup "S-DESK-2" registry.sessions))
    × (get (pos 9) "S-DESK-2" registry ≡ shown (pos 9) "" (lookup "S-DESK-2" registry.sessions))
list_agrees_example = list_agrees (pos 9) "commons-lab" "S-DESK-2" calls

steps-IsKeyed_example : IsKeyed registry
steps-IsKeyed_example = steps-IsKeyed calls

leases : (lease_execution (pos 10) "S-PLUM-7" (pos 20) registry).1 ≡ true
unfolding steps step connect disconnect lease_execution lookup put str_eq
leases = refl

lease_kept_example :
    (snap : Snapshot) × (get (pos 29) "S-PLUM-7" (
        steps
          (disconnect_op (pos 11) "S-PLUM-7" ∷ [])
          (lease_execution (pos 10) "S-PLUM-7" (pos 20) registry).0)
      ≡ some snap)
    × ShowsLease (pos 29) (pos 10 +ℤ pos 20) snap
lease_kept_example =
    lease_kept (pos 10) (pos 29) (pos 20) "S-PLUM-7" registry
      (disconnect_op (pos 11) "S-PLUM-7" ∷ []) leases (omega arith) (tt, tt)
