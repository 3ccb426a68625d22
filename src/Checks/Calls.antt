-- ===== src/Checks/Calls.antt =====
-- Services.
use com_ipc.Common.{
  ℕ, List, take, ◌+◌, ◌≡◌, ◌≢◌, inl, refl, [], ◌∷◌, true, false, none, some, lock_robust, arith,
  timed_out,
}
use com_ipc.Types.{ServiceShm}
use com_ipc.Service.{
  Wake, clear, post, ServiceClient, replied, refused, call, ServiceCallback, serve,
}
use com_ipc.Service.{CallEnd}
use com_ipc.Service.{respond, wait_free, wait_response, request_reply, finish}
use com_ipc.Service.Channel
use com_ipc.Service.Channel.{Channel, opened, ask}
use com_ipc.Service.Channel.Answers.{call_answered}
use com_ipc.Service.Ends.{call_ends}
use com_ipc.Service.Exchange.{call_crossed}

abbrev pub free_channel : ServiceShm
free_channel = record {
  has_request = false;
  has_response = false;
  request = record { client_pid = 0; request_id = 0; data_size = 0; bytes = [] };
  response = record { request_id = 0; data_size = 0; bytes = [] };
}

-- Answers the bytes of the request.
abbrev echo : ServiceCallback
echo bytes size = some bytes

abbrev client : ServiceClient
client = record { mapped = true; next_req_id = 0 }

abbrev asked : ServiceShm
asked = post 41 1 (7 ∷ []) free_channel

timeout_clears :
    (call 41
      (7 ∷ [])
      1
      client
      0
      false
      free_channel
      (record { ret = timed_out; shm = asked; shutdown = false } ∷ [])).1
    ≡ refused (clear asked)
unfolding call lock_robust
timeout_clears = refl

call_crossed_example :
    let second = post 42 (0 + 1) (9 ∷ []) (clear asked) in
    let late : Wake = record { ret = timed_out; shm = asked; shutdown = false } in
    let wake : Wake = record { ret = 0; shm = serve echo asked second; shutdown = false } in
    (s' : ServiceShm) × ((call 41 (7 ∷ []) 1 client 0 false free_channel (late ∷ [])).1
      ≡ refused (clear asked))
    × ((call 42 (9 ∷ []) 1 client 0 false (clear asked) (wake ∷ [])).1 ≡ replied (7 ∷ []) s')
call_crossed_example =
    call_crossed echo 41 42 (7 ∷ []) (9 ∷ []) (7 ∷ []) client client free_channel [] refl refl refl
      refl refl (omega arith)

call_ends_example :
    (call 41
      (7 ∷ [])
      1
      client
      0
      false
      free_channel
      (record { ret = timed_out; shm = asked; shutdown = false } ∷ [])).1
    ≢ CallEnd.blocked
call_ends_example =
    call_ends 41 (7 ∷ []) 1 client 0 false free_channel
      (record { ret = timed_out; shm = asked; shutdown = false } ∷ []) (inl (omega arith))

-- A server dies over the first request, which the client gives up, and another serves the second.
abbrev deserted : Channel
deserted = record {
  segment = clear (post 41 1 (9 ∷ []) (clear free_channel));
  copied = none;
  asked = (1, 9 ∷ []) ∷ [];
  next_req_id = 1;
}

deserted_reached : Channel.Reach echo 41 (opened free_channel) deserted
deserted_reached =
    Channel.by_server
      (Channel.by_client
        (Channel.by_server (Channel.by_client Channel.start (Channel.asks (9 ∷ [])))
          (Channel.copies refl))
        Channel.gives_up)
      Channel.dies

abbrev second : Channel
second = ask 41 (7 ∷ 8 ∷ []) deserted

abbrev served_second : ServiceShm
served_second = respond second.segment.request (some (7 ∷ 8 ∷ [])) second.segment

abbrev second_wake : Wake
second_wake = record { ret = 0; shm = served_second; shutdown = false }

call_answered_example :
    (answer : List ℕ) × (echo (7 ∷ 8 ∷ []) 2 ≡ some answer) × (7 ∷ 8 ∷ [] ≡ take 2 answer)
unfolding call respond wait_free wait_response request_reply finish lock_robust
call_answered_example =
    call_answered echo 41 deserted free_channel deserted.segment (7 ∷ 8 ∷ []) 2
      (record client { next_req_id = 1 }) 0 false (second_wake ∷ []) (second_wake ∷ []) (7 ∷ 8 ∷ [])
      (record served_second { has_response = false }) deserted_reached refl refl
      (
        (
          record second { segment = served_second; copied = none },
          Channel.one_more (Channel.one_more Channel.none_yet (Channel.copies refl))
              (Channel.answers second.segment.request refl),
          refl,
        ),
        tt,
      )
      refl
