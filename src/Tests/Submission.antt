-- ===== src/Tests/Submission.antt =====
-- Submissions to the router of crates/lxmf-core/src/router.rs on concrete inputs.
use rs_lxmf.Prelude.{
  ℕ, ◌≡◌, true, some, none, List, [], ◌∷◌, refl, arith, nat_eq, count, any, ok, err,
}
use rs_lxmf.Map
use rs_lxmf.Router.{LxmRouter, SignedLxMessage, new, default_config}
use rs_lxmf.Router.Queue.{try_send, defer_stamp, fall_back}
use rs_lxmf.Router.Submit.{submit_signed, empty, success, already_queued}
use rs_lxmf.Router.Submit.Unique.{IsUnique}
use rs_lxmf.Router.Submit.Calls.{
  RouterCall, submit, stamps, cancel, router_run, router_run-IsUnique,
}
use rs_lxmf.Tests.Numbers.{whole}
use rs_lxmf.Tests.Routing.{letter}

abbrev signed : SignedLxMessage whole
signed = record { message = letter; outbound_ticket = none; stamp_cost = some 8 }

abbrev idle : LxmRouter whole
idle = new whole (default_config whole)

-- a second submission of a deferred message is refused
submitted_twice :
    (submit_signed whole 300 true signed (submit_signed whole 300 true signed idle).0).1
    ≡ err already_queued
unfolding submit_signed try_send defer_stamp fall_back Map.get Map.insert any
submitted_twice = refl

-- a stamped message has 34 bytes more, and goes into the queue
stamped :
    (submit_signed whole 300 true (record signed { outbound_ticket = some (7 ∷ []) }) idle).1
    ≡ ok tt
unfolding submit_signed try_send fall_back Map.get any
stamped = refl

idle-IsUnique : IsUnique whole idle
unfolding Map.get count
idle-IsUnique = (λ id. omega arith, λ id s e. absurd (ground (arith, e)))

abbrev calls : List (RouterCall whole × ℕ)
calls =
    (submit 300 true signed, 40)
    ∷ (submit 300 true signed, 41)
    ∷ (stamps 300 true true empty true, 44)
    ∷ (stamps 300 true true success true, 48)
    ∷ (submit 300 true signed, 49)
    ∷ (cancel 1, 50)
    ∷ []

router_run-IsUnique_example : IsUnique whole (router_run whole calls idle)
router_run-IsUnique_example = router_run-IsUnique whole calls idle idle-IsUnique
