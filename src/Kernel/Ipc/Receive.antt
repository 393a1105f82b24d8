-- ===== src/Kernel/Ipc/Receive.antt =====
-- kernel_service_ipc_receive: a message that was sent is received, once, while it is alive.
use fern_night.Prelude.{
  ℕ, zero, suc, ◌+◌, ◌^◌, ◌≤◌, ◌<◌, true, false, Option, none, some, ◌≡◌, ◌≢◌, refl, ap, ◌⊎◌, inl,
  inr, arith, Bool-cases,
}
use native.Mathlib.Decide.{ℕ_discrete}
use fern_night.Kernel.Ipc.{
  Message, Messages, data_size, ipc_limit, ipc_ttl, update, is_for, find_message,
  kernel_service_ipc_receive,
}
use fern_night.Kernel.Ipc.Send.{Sent}

module _ (now kind target : ℕ) (table : ℕ → Message) where
  -- What a search of the `left` entries from `i` on found.
  abbrev Found : ℕ → ℕ → Option ℕ → Type 0
  Found left i none = (j : ℕ) → i ≤ j → j < i + left → is_for now kind target (table j) ≡ false
  Found left i (some e) =
      (i ≤ e)
      × (e < i + left)
      × (is_for now kind target (table e) ≡ true)
      × ((j : ℕ) → i ≤ j → j < e → is_for now kind target (table j) ≡ false)

  find_message-Found : (left i : ℕ) → Found left i (find_message now kind target table left i)
  unfolding find_message
  find_message-Found zero i = λ j h l. absurd (omega arith)
  find_message-Found (suc left) i = elim (Bool-cases (is_for now kind target (table i))) [
    | inl e ↦ rw e (omega arith, omega arith, e, λ j h l. absurd (omega arith))
    | inr e ↦ rw e (
        later (find_message now kind target table left (i + 1)) (find_message-Found left (i + 1)) e)
  ]
    where
      later :
          (o : Option ℕ)
          → Found left (i + 1) o
          → is_for now kind target (table i) ≡ false
          → Found (suc left) i o
      later none h e =
          λ j l g. elim (ℕ_discrete j i) [ yes s ↦ rw s e | no n ↦ h j (omega arith) (omega arith) ]
      later (some v) (a, b, c, d) e = (
        omega arith,
        omega arith,
        c,
        λ j l g. elim (ℕ_discrete j i) [ yes s ↦ rw s e | no n ↦ d j (omega arith) g ],
      )

-- The messages after the one at `e` was taken.
abbrev pub taken : Messages → ℕ → Messages
taken m e = record {
  ipc_base_address = update m.ipc_base_address e (record (m.ipc_base_address e) { ttl = 0 });
  ipc_semaphore = false;
}

module _ (now kind target : ℕ) (m : Messages) (unlocked : m.ipc_semaphore ≡ false) where
  receive_taken :
      (e : ℕ)
      → find_message now kind target m.ipc_base_address ipc_limit 0 ≡ some e
      → kernel_service_ipc_receive now m target kind ≡ some (some (m.ipc_base_address e), taken m e)
  unfolding kernel_service_ipc_receive
  receive_taken e h = ground (arith, h)

  receive_nothing :
      find_message now kind target m.ipc_base_address ipc_limit 0 ≡ none
      → kernel_service_ipc_receive now m target kind
        ≡ some (none, record m { ipc_semaphore = false })
  unfolding kernel_service_ipc_receive
  receive_nothing h = ground (arith, h)

-- The outcomes of a receive: nothing for the process, or the first message for it.
pub data Received (now kind target : ℕ) (m : Messages) : Option Message → Messages → Type 0 where
  nothing :
      ((j : ℕ) → j < ipc_limit → is_for now kind target (m.ipc_base_address j) ≡ false)
      → Received now kind target m none (record m { ipc_semaphore = false })
  first :
      (e : ℕ)
      → e < ipc_limit
      → is_for now kind target (m.ipc_base_address e) ≡ true
      → ((j : ℕ) → j < e → is_for now kind target (m.ipc_base_address j) ≡ false)
      → Received now kind target m (some (m.ipc_base_address e)) (taken m e)

-- Without the lock held, receiving always returns: either no entry has a living message of the
-- type for the process, and the messages stay; or the first such message is copied, and only its
-- entry changes, to a free one.
pub ipc_receive_first :
    (now kind target : ℕ) (m : Messages)
    → m.ipc_semaphore ≡ false
    → (o : Option Message) × (m' : Messages) × (kernel_service_ipc_receive now m target kind
        ≡ some (o, m'))
      × Received now kind target m o m'
ipc_receive_first now kind target m unlocked =
    by_result (find_message now kind target m.ipc_base_address ipc_limit 0) refl
      (find_message-Found now kind target m.ipc_base_address ipc_limit 0)
  where
    by_result :
        (o : Option ℕ)
        → find_message now kind target m.ipc_base_address ipc_limit 0 ≡ o
        → Found now kind target m.ipc_base_address ipc_limit 0 o
        → (o : Option Message) × (m' : Messages) × (kernel_service_ipc_receive now m target kind
            ≡ some (o, m'))
          × Received now kind target m o m'
    by_result none h found = (
      _,
      _,
      receive_nothing now kind target m unlocked h,
      nothing (λ j l. found j (omega arith) l),
    )
    by_result (some e) h (a, b, c, d) = (
      _,
      _,
      receive_taken now kind target m unlocked e h,
      first e b c (λ j l. d j (omega arith) l),
    )

module _ (now kind target : ℕ) (table : ℕ → Message) where
  find_message-none :
      ((j : ℕ) → j < ipc_limit → is_for now kind target (table j) ≡ false)
      → find_message now kind target table ipc_limit 0 ≡ none
  find_message-none h =
      by_result (find_message now kind target table ipc_limit 0)
        (find_message-Found now kind target table ipc_limit 0)
    where
      by_result : (o : Option ℕ) → Found now kind target table ipc_limit 0 o → o ≡ none
      by_result none found = refl
      by_result (some e) (a, b, c, d) = absurd (ground (arith, h e b, c))

  find_message-only :
      (e : ℕ)
      → e < ipc_limit
      → is_for now kind target (table e) ≡ true
      → ((j : ℕ) → j < ipc_limit → j ≢ e → is_for now kind target (table j) ≡ false)
      → find_message now kind target table ipc_limit 0 ≡ some e
  find_message-only e l here alone =
      by_result (find_message now kind target table ipc_limit 0)
        (find_message-Found now kind target table ipc_limit 0)
    where
      by_result : (o : Option ℕ) → Found now kind target table ipc_limit 0 o → o ≡ some e
      by_result none found = absurd (ground (arith, found e, here))
      by_result (some v) (a, b, c, d) = elim (ℕ_discrete v e) [
        | yes s ↦ ap some s
        | no n ↦ absurd (ground (arith, alone v b n, c))
      ]

-- A message that was sent is one for its target, while it is alive.
is_for-Sent :
    (clock : ℕ → ℕ) (m m' : Messages) (sender pid : ℕ) (bytes : ℕ → ℕ) (e r now kind : ℕ)
    → Sent clock m sender pid bytes e r m'
    → now < clock r + ipc_ttl
    → clock r + ipc_ttl < 2 ^ 64
    → (kind ≡ 0) ⊎ (kind ≡ bytes 0)
    → is_for now kind pid (m'.ipc_base_address e) ≡ true
unfolding is_for
is_for-Sent clock m m' sender pid bytes e r now kind sent alive small kinds =
    ground (arith, sent.message_ttl, sent.message_target, sent.message_data 0 (omega arith), kinds)

-- The entry of a message that was taken is for nobody.
is_for-taken :
    (now kind target : ℕ) (m : Messages) (e : ℕ)
    → ((j : ℕ) → j < ipc_limit → j ≢ e → is_for now kind target (m.ipc_base_address j) ≡ false)
    → (j : ℕ) → j < ipc_limit
    → is_for now kind target ((taken m e).ipc_base_address j) ≡ false
unfolding is_for
is_for-taken now kind target m e alone j l = ground (arith, alone j l)

-- A message sent in round `r` at the entry `e`, with a time of expiry that does not wrap, is
-- received by its target at every time before it expires, if the type asked for is any or the
-- message's and no other entry has a message for the process: with the sender, the target and the
-- bytes. A second receive then finds nothing.
pub receive-send :
    (clock : ℕ → ℕ) (m m' : Messages) (sender pid : ℕ) (bytes : ℕ → ℕ) (e r now kind : ℕ)
    → Sent clock m sender pid bytes e r m'
    → e < ipc_limit
    → now < clock r + ipc_ttl
    → clock r + ipc_ttl < 2 ^ 64
    → (kind ≡ 0) ⊎ (kind ≡ bytes 0)
    → ((j : ℕ) → j < ipc_limit → j ≢ e → is_for now kind pid (m'.ipc_base_address j) ≡ false)
    → (message : Message) × (m'' : Messages) × (kernel_service_ipc_receive now m' pid kind
        ≡ some (some message, m''))
      × (message.source ≡ sender)
      × (message.target ≡ pid)
      × ((d : ℕ) → d < data_size → message.data_bytes d ≡ bytes d)
      × (kernel_service_ipc_receive now m'' pid kind ≡ some (none, m''))
receive-send clock m m' sender pid bytes e r now kind sent l alive small kinds alone = (
  m'.ipc_base_address e,
  taken m' e,
  receive_taken now kind pid m' sent.unlocked e (
      find_message-only now kind pid m'.ipc_base_address e l
        (is_for-Sent clock m m' sender pid bytes e r now kind sent alive small kinds) alone),
  sent.message_source,
  sent.message_target,
  sent.message_data,
  receive_nothing now kind pid (taken m' e) refl (
      find_message-none now kind pid (taken m' e).ipc_base_address
        (is_for-taken now kind pid m' e alone)),
)
