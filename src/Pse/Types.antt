-- ===== src/Pse/Types.antt =====
-- The state of the character driver, src/pse.c, the interface of the ISHTP bus that it stands on, and
-- the monad of its handlers.
use ubuntu_elkhart_lake_pse.Prelude.{ℕ, Bool, true, false, List, Option, none, some}
use ubuntu_elkhart_lake_pse.Ishtp.Types.{Errno, Code, ok, err, DevState, ClState, FwClient, Rb}

-- The functions of the bus driver that src/pse.c calls, over the state `S` of the bus and of its
-- clients; a client is named by its address. Then the fields of a client and of its device that
-- pse.c reads or writes itself. `live` tells whether the memory of a client is allocated;
-- `msleep` is what the rest of the system does while the driver sleeps.
pub record Bus (S : Type 0) : Type 0 where
  pub ishtp_cl_allocate : S → Option ℕ × S
  pub ishtp_cl_link : ℕ → S → Code × S
  pub ishtp_cl_unlink : ℕ → S → S
  pub ishtp_cl_flush_queues : ℕ → S → S
  pub ishtp_cl_free : ℕ → S → S
  pub kfree : ℕ → S → S
  pub ishtp_cl_connect : ℕ → S → Code × S
  pub ishtp_cl_disconnect : ℕ → S → Code × S
  pub ishtp_cl_send : ℕ → List ℕ → ℕ → S → Code × S
  pub ishtp_cl_tx_empty : ℕ → S → Bool
  pub ishtp_cl_rx_get_rb : ℕ → S → Option Rb × S
  pub ishtp_cl_io_rb_recycle : Rb → S → Code × S
  pub ishtp_fw_cl_get_client : List ℕ → S → Option FwClient
  pub ishtp_register_event_cb : S → Code × S
  pub ishtp_put_device : S → S
  pub cl_state : ℕ → S → ClState
  pub set_cl_state : ℕ → ClState → S → S
  pub set_fw_client_id : ℕ → ℕ → S → S
  pub dev_state : S → DevState
  pub max_msg_length : ℕ → S → ℕ
  pub protocol_name : S → List ℕ
  pub live : ℕ → S → Bool
  pub msleep : S → S

-- `struct pse_device` with its `struct pse_read_buffer`. `lock` tells whether the mutex is held,
-- `cl_device` and `ishtp_dev` whether these pointers are set; `work` is the scheduled reset work. The
-- character device has its region, its cdev, its class and its node.
pub record PseDevice : Type 0 where
  pub cl : Option ℕ
  pub cl_device : Bool
  pub ishtp_dev : Bool
  pub lock : Bool
  pub wait_exception : Bool
  pub rb : Option Rb
  pub work : Bool
  pub region : Bool
  pub cdev : Bool
  pub cclass : Bool
  pub node : Bool

pub record World (S : Type 0) : Type 0 where
  pub pse : PseDevice
  pub bus : S

-- How a handler ends: it returns; it waits for a mutex that is held for ever; or it uses a pointer
-- that is NULL or freed.
pub data Outcome (S A : Type 0) : Type 0 where
  done : A → World S → Outcome S A
  blocked fault : Outcome S A

abbrev pub M : Type 0 → Type 0 → Type 0
M S A = World S → Outcome S A

module _ {S : Type 0} where
  infixl 5 ◌>>=◌ ◌>>◌
  abbrev pub ◌>>=◌ : {A B : Type 0} → M S A → (A → M S B) → M S B
  ◌>>=◌ m f w = elim (m w) [ done a w' ↦ f a w' | blocked ↦ blocked | fault ↦ fault ]

  abbrev pub ◌>>◌ : {B : Type 0} → M S (Unit {0}) → M S B → M S B
  m >> k = m >>= λ _. k

  abbrev pub pure : {A : Type 0} → A → M S A
  pure a w = done a w

  abbrev pub get_pse : M S PseDevice
  get_pse w = done w.pse w

  abbrev pub modify : (PseDevice → PseDevice) → M S (Unit {0})
  modify f w = done tt (record w { pse = f w.pse })

  -- A read of the bus, a call that changes it, and one that also returns something.
  abbrev pub ask : {A : Type 0} → (S → A) → M S A
  ask f w = done (f w.bus) w

  abbrev pub bus_do : (S → S) → M S (Unit {0})
  bus_do f w = done tt (record w { bus = f w.bus })

  abbrev pub call : {A : Type 0} → (S → A × S) → M S A
  call f w = let (a, s) = f w.bus in done a (record w { bus = s })

  abbrev pub mutex_lock : M S (Unit {0})
  mutex_lock w = elim w.pse.lock [
    | true ↦ blocked
    | false ↦ done tt (record w { pse = record (w.pse) { lock = true } })
  ]

  abbrev pub mutex_unlock : M S (Unit {0})
  mutex_unlock w = done tt (record w { pse = record (w.pse) { lock = false } })

  -- The client is used: its memory has to be there.
  abbrev pub deref : Bus S → ℕ → M S (Unit {0})
  deref b p w = elim (b.live p w.bus) [ true ↦ done tt w | false ↦ fault ]

  -- A branch on a test, on a pointer that may be NULL, and on a returned code. The state is handed to
  -- the branch that is taken.
  infix 1 if◌then◌else◌
  abbrev pub if◌then◌else◌ : {A : Type 0} → Bool → M S A → M S A → M S A
  if◌then◌else◌ c m k w = elim c [ true ↦ m w | false ↦ k w ]

  abbrev pub if_some : {A B : Type 0} → Option A → (A → M S B) → M S B → M S B
  if_some o f m w = elim o [ none ↦ m w | some a ↦ f a w ]

  abbrev pub if_ok : {B : Type 0} → Code → M S B → (Errno → M S B) → M S B
  if_ok c m f w = elim c [ ok n ↦ m w | err e ↦ f e w ]
