-- ===== src/Motd.antt =====
-- dump/tthreaded/factory_server.cpp: `MessageHandler`, one for each connection, whose `motd` goes round
-- three messages, and `MessageHandlerFactory`, which numbers the connections.
pub mod Turns
use apache_thrift_benchmarki.Prelude.{
  ℕ, zero, suc, ◌+◌, ◌%◌, ◌^◌, ◌≡◌, Bool, true, false, List, [], ◌∷◌, ◌++◌, Option, none, some,
  get_elem?,
}
use apache_thrift_benchmarki.Format.{Text, codes, to_string}

-- `msg_index` and `connection_no` are of type unsigned int; the output is that of the process.
pub record MessageHandler : Type 0 where
  pub msg_index : ℕ
  pub connection_no : ℕ
  pub output : List Text

abbrev pub msgs : List Text
msgs = codes "Apache Thrift!!" ∷ codes "Childhood is a short season" ∷ codes "'Twas brillig" ∷ []

-- The text that is returned, none outside `msgs`, and the handler.
unfoldable pub motd : Text → Text → MessageHandler → Option Text × MessageHandler
motd thread data_sent handler =
    let msg_index = (handler.msg_index + 1) % 2 ^ 32 in
    (
      get_elem? msgs (msg_index % 3),
      record handler {
        msg_index = msg_index;
        output =
            handler.output
            ++ (codes "User sent the following: " ++ data_sent)
              ∷ (codes "Current Thread is: " ++ thread)
              ∷ (codes "["
                  ++ (to_string handler.connection_no
                      ++ (codes "] Call count: " ++ to_string msg_index)))
              ∷ [];
      },
    )

-- `getHandler`: the new handler and the factory's count.
unfoldable pub get_handler : List Text → ℕ → MessageHandler × ℕ
get_handler output connection_no =
    let connection_no' = (connection_no + 1) % 2 ^ 32 in
    (record { msg_index = 0; connection_no = connection_no'; output = output }, connection_no')

-- What a sequence of calls returns, and the handler after it.
unfoldable pub motds : Text → List Text → MessageHandler → List (Option Text) × MessageHandler
motds thread [] handler = ([], handler)
motds thread (data_sent ∷ later) handler =
    let r = motd thread data_sent handler in
    let rest = motds thread later r.1 in (r.0 ∷ rest.0, rest.1)
