-- ===== src/Kernel/Ipc/Tests.antt =====
-- The theorems on the messages of kernel/service.c at one that task 7 sends to task 9.
use fern_night.Prelude.{
  ℕ, ◌+◌, ◌*◌, ◌≤◌, ◌<◌, false, Option, none, some, ◌==◌, if◌then◌else◌, ◌≡◌, ◌≢◌, inr, refl, arith,
}
use fern_night.Kernel.Ipc.{
  Message, Messages, data_size, ipc_limit, is_for, kernel_service_ipc_send,
  kernel_service_ipc_receive,
}
use fern_night.Kernel.Ipc.Send.{Sent, ipc_send_returns}
use fern_night.Kernel.Ipc.Receive.{Received, ipc_receive_first, receive-send}

-- The entry 0 is taken until time 20.
abbrev messages : Messages
messages = record {
  ipc_base_address =
      λ i. record { ttl = if i == 0 then 20 else 0; source = 1; target = 2; data_bytes = λ x. 0 };
  ipc_semaphore = false;
}

abbrev bytes : ℕ → ℕ
bytes x = x + 1

abbrev clock : ℕ → ℕ
clock n = 10 + 20 * n

abbrev sent_messages : Messages
sent_messages = record {
  ipc_base_address = λ i.
      if i == 1
      then record { ttl = 130; source = 7; target = 9; data_bytes = bytes }
      else messages.ipc_base_address i;
  ipc_semaphore = false;
}

ipc_send_returns_example :
    (m' : Messages) × (kernel_service_ipc_send 4 clock messages 7 9 bytes ≡ some m')
    × ((e : ℕ) × (r : ℕ) × (e < ipc_limit) × (r ≤ 1) × Sent clock messages 7 9 bytes e r m')
ipc_send_returns_example =
    ipc_send_returns 4 clock messages 7 9 bytes 1 refl (omega arith) (λ j l. ground arith)

ipc_receive_first_example :
    (o : Option Message) × (m' : Messages) × (kernel_service_ipc_receive 50 sent_messages 9 1
      ≡ some (o, m'))
    × Received 50 1 9 sent_messages o m'
ipc_receive_first_example = ipc_receive_first 50 1 9 sent_messages refl

sent_messages-Sent : Sent clock messages 7 9 bytes 1 1 sent_messages
sent_messages-Sent = record {
  expired = omega arith;
  message_ttl = refl;
  message_source = refl;
  message_target = refl;
  message_data = λ d l. refl;
  others = λ j n. ground arith;
  unlocked = refl;
}

others_not_for :
    (j : ℕ) → j < ipc_limit → j ≢ 1 → is_for 50 1 9 (sent_messages.ipc_base_address j) ≡ false
unfolding is_for
others_not_for j l n = ground arith

receive-send_example :
    (message : Message) × (m'' : Messages) × (kernel_service_ipc_receive 50 sent_messages 9 1
      ≡ some (some message, m''))
    × (message.source ≡ 7)
    × (message.target ≡ 9)
    × ((d : ℕ) → d < data_size → message.data_bytes d ≡ bytes d)
    × (kernel_service_ipc_receive 50 m'' 9 1 ≡ some (none, m''))
receive-send_example =
    receive-send clock messages sent_messages 7 9 bytes 1 1 50 1 sent_messages-Sent (omega arith)
      (omega arith) (omega arith) (inr refl) others_not_for
