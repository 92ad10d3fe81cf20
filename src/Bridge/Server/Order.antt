-- ===== src/Bridge/Server/Order.antt =====
-- The two kinds of command in a sorted batch (bridge/src/tcp_server.cpp, client_loop).
use bot_cock_pit.Prelude.{◌≡◌, refl, ◌∙◌, Bool, false, not, ◌&&◌, List, arith, append-nil}
use bot_cock_pit.Codec.{Frame}
use bot_cock_pit.Bridge.Server.Batch.{
  filter, filter-append, filter-filter, filter-false, estop_first-filter,
}
use bot_cock_pit.Bridge.Server.{estop_first, is_estop, is_command}

abbrev pub is_queued : Frame → Bool
is_queued f = is_command f.type && not (is_estop f)

pub queued-first :
    (batch : List Frame) → filter is_queued (estop_first batch) ≡ filter is_queued batch
queued-first batch = rw (estop_first-filter batch) (
    filter-append is_queued (filter is_estop batch) (filter (λ f. not (is_estop f)) batch)
    ∙ rw
        (
          filter-filter is_queued is_estop (λ f. false) batch (λ f. ground arith),
          filter-false (λ f. false) batch (λ f. refl),
        )
        (filter-filter is_queued (λ f. not (is_estop f)) is_queued batch (λ f. ground arith)))

pub stops-first : (batch : List Frame) → filter is_estop (estop_first batch) ≡ filter is_estop batch
stops-first batch = rw (estop_first-filter batch) (
    filter-append is_estop (filter is_estop batch) (filter (λ f. not (is_estop f)) batch)
    ∙ rw
        (
          filter-filter is_estop (λ f. not (is_estop f)) (λ f. false) batch (λ f. ground arith),
          filter-false (λ f. false) batch (λ f. refl),
        )
        (append-nil _ ∙ filter-filter is_estop is_estop is_estop batch (λ f. ground arith)))
