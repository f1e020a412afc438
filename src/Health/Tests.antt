-- ===== src/Health/Tests.antt =====
-- Runs of the health checks on a world that is a pipeline's machine.
use mathlib.Core.List.Perm
use philotes.Common.Maps.{put}
use philotes.Common.{◌≡◌, refl, none, [], ◌∷◌, not, if◌then◌else◌}
use philotes.Health.{
  unknown, Results, HealthChecker, HealthManager, register, component_checker, pipeline_checker,
  handle_health, handle_readiness, get_overall_status, check_all, is_healthy_status,
  is_unhealthy_status,
}
use philotes.Pipeline.State.{State, paused, failed, StateMachine}
use philotes.Health.Answers.{any_result, is_bad, is_known_fault, Reorders, health-agrees}

abbrev machine : State → StateMachine
machine s = record { state = s; listeners = [] }

abbrev lost : HealthChecker StateMachine
lost = component_checker "source" (λ w. ((unknown, "no answer", none), w)) (λ w. 0)

abbrev manager : HealthManager StateMachine
manager = register (pipeline_checker (λ w. w) (λ w. 7)) (record { checkers = []; results = [] })

abbrev two : HealthManager StateMachine
two = register lost manager

abbrev in_order : Results → Results
in_order rs = rs

-- The second of two results is read first.
abbrev backwards : Results → Results
backwards [] = []
backwards (a ∷ []) = a ∷ []
backwards (a ∷ b ∷ rest) = b ∷ a ∷ rest

paused_is_ready : handle_readiness in_order manager (machine paused) ≡ 200
unfolding handle_readiness put
paused_is_ready = refl

failed_is_not : handle_readiness in_order manager (machine failed) ≡ 503
unfolding handle_readiness put
failed_is_not = refl

-- A paused pipeline beside a component of which nothing is known.
first_order : (handle_health in_order 9 two (machine paused)).0 ≡ 503
unfolding handle_health put
first_order = refl

second_order : (handle_health backwards 9 two (machine paused)).0 ≡ 200
unfolding handle_health put
second_order = refl

in_order-Reorders : Reorders in_order
in_order-Reorders rs = Perm.refl rs

backwards-Reorders : Reorders backwards
backwards-Reorders [] = Perm.refl []
backwards-Reorders (a ∷ []) = Perm.refl (a ∷ [])
backwards-Reorders (a ∷ b ∷ rest) = Perm.swap a b rest

health-agrees_example :
    (is_unhealthy_status (get_overall_status in_order 9 two (machine paused)).0.status
      ≡ any_result is_unhealthy_status (check_all two (machine paused)).0)
    × (is_healthy_status (get_overall_status in_order 9 two (machine paused)).0.status
        ≡ not (any_result is_known_fault (check_all two (machine paused)).0))
    × (handle_readiness backwards two (machine paused)
        ≡ (if any_result is_bad (check_all two (machine paused)).0 then 503 else 200))
    × (handle_readiness backwards two (machine paused) ≡ 200
        → (handle_health in_order 9 two (machine paused)).0 ≡ 200)
health-agrees_example =
    health-agrees in_order backwards 9 two (machine paused) in_order-Reorders backwards-Reorders
