-- ===== src/Examples/Client.antt =====
-- The exchange of commands, examples/pse.c. What is not initialised is 0 here.
pub mod Driver
pub mod Faults
use ubuntu_elkhart_lake_pse.Prelude.{
  ℕ, ◌+◌, ◌%◌, Bool, true, false, not, List, [], ◌∷◌, ◌++◌, Option, none, some, ◌==◌, length,
}
use ubuntu_elkhart_lake_pse.Prelude.Int.{
  ℤ, pos, negsuc, negate, is_negative, is_zero, is_nonpositive,
}
use ubuntu_elkhart_lake_pse.Pse.Probe.{pse_smhi_guid}
use ubuntu_elkhart_lake_pse.Examples.Heci.{
  header_size, body_size, Header, Body, header_bytes, body_bytes, header_of, body_of,
}
use ubuntu_elkhart_lake_pse.Examples.Program.{U, Os, ◌>>=◌, ◌>>◌, pure, if◌then◌else◌, if_some}

-- What `pse_read_response` returns and leaves in `header` and `body`.
pub record Response : Type 0 where
  pub length : ℤ
  pub header : Header
  pub body : Option Body

-- The header before a response, with the status that `pse_command_checked` gives it.
abbrev pub no_header : Header
no_header = record { command = 0; is_response = false; has_next = false; argument = 0; status = 1 }

-- A body that is not initialised.
abbrev pub fresh_body : Body
fresh_body = record { kind = 0; length = 0; padding = 0; payload = [] }

abbrev pub command_header : ℕ → ℕ → Option Body → Header
command_header command arg body = record {
  command = command % 256;
  is_response = false;
  has_next = elim body [ none ↦ false | some b ↦ true ];
  argument = arg;
  status = 0;
}

abbrev bytes_of_body : Option Body → List ℕ
bytes_of_body none = []
bytes_of_body (some b) = body_bytes b

module _ {S : Type 0} (os : Os S) where
  unfoldable pub pse_client_connect : U S ℤ
  pse_client_connect = do
    fd ← os.open_pse
    if is_nonpositive fd
        then pure fd
        else do ret ← os.ioctl fd pse_smhi_guid; if is_zero ret then pure fd else pure ret

  -- The header, and the body if there is one, are one write.
  unfoldable pub pse_send_command : ℤ → ℕ → ℕ → Option Body → U S (Unit {0})
  pse_send_command fd command arg body =
      os.write fd (header_bytes (command_header command arg body) ++ bytes_of_body body)

  -- The second read, of a body that the header announces.
  unfoldable pub read_body : ℤ → Header → Body → U S Response
  read_body fd header body = do
    o ← os.read fd body_size
    if_some o
        (λ bs.
          if not (length bs == body_size)
          then pure (record { length = pos (length bs); header = header; body = some body })
          else pure (record {
            length = pos (body_size + header_size);
            header = header;
            body = some (body_of bs);
          }))
        (pure (record { length = negsuc 0; header = header; body = some body }))

  unfoldable pub pse_read_response : ℤ → Option Body → U S Response
  unfolding read_body
  pse_read_response fd body = do
    set ← os.select fd
    if not set then pure (record { length = negsuc 0; header = no_header; body = body }) else do
      o ← os.read fd header_size
      if_some o
          (λ bs.
            if not (length bs == header_size)
            then pure (record { length = pos (length bs); header = no_header; body = body })
            else (let header = header_of bs in
                if not header.has_next
                then pure (record { length = pos header_size; header = header; body = body })
                else if_some body (read_body fd header)
                    (pure (record { length = pos header_size; header = header; body = body }))))
          (pure (record { length = negsuc 0; header = no_header; body = body }))

  -- The result, and `out_body`.
  unfoldable pub pse_command_checked : ℤ → ℕ → ℕ → Option Body → Option Body → U S (ℤ × Option Body)
  unfolding pse_send_command pse_read_response
  pse_command_checked fd command arg in_body out_body = do
    pse_send_command fd command arg in_body
    r ← pse_read_response fd out_body
    if is_negative r.length
        then pure (negsuc 0, r.body)
        else if not (r.header.status == 0)
        then pure (negate r.header.status, r.body)
        else pure (elim r.header.has_next [ true ↦ pos 1 | false ↦ pos 0 ], r.body)
