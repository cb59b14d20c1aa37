-- ===== src/Command/Isolation/Plain.antt =====
-- The plain commands, PING, ECHO, QUIT and COMMAND (internal/command/registry.go).
use cache_custom.Prelude.{List, [], ◌∷◌}
use cache_custom.Bytes.{Bytes}
use cache_custom.Command.{subscribed}
use cache_custom.Command.Dispatch.{
  ping, ping_in_mode, ping_plain, echo, quit_command, command_command,
}
use cache_custom.Command.Isolation.{Stays, Local, answer_lem}
use cache_custom.Command.Isolation.Strings.{if-Stays}

pub ping-Local : Local ping
unfolding ping ping_in_mode ping_plain
ping-Local args ctx w o = if-Stays (subscribed ctx.pubsub w) ctx w _ _ (in_mode args) (plain args)
  where
    in_mode : (args : List Bytes) → Stays ctx w (ping_in_mode args ctx w)
    in_mode [] = answer_lem _ ctx w o
    in_mode (c ∷ []) = answer_lem _ ctx w o
    in_mode (c ∷ m ∷ []) = answer_lem _ ctx w o
    in_mode (c ∷ m ∷ a ∷ rest) = answer_lem _ ctx w o

    plain : (args : List Bytes) → Stays ctx w (ping_plain args ctx w)
    plain [] = answer_lem _ ctx w o
    plain (c ∷ []) = answer_lem _ ctx w o
    plain (c ∷ m ∷ []) = answer_lem _ ctx w o
    plain (c ∷ m ∷ a ∷ rest) = answer_lem _ ctx w o

pub echo-Local : Local echo
unfolding echo
echo-Local [] = answer_lem _
echo-Local (c ∷ []) = answer_lem _
echo-Local (c ∷ m ∷ []) = answer_lem _
echo-Local (c ∷ m ∷ a ∷ rest) = answer_lem _

pub quit_command-Local : Local quit_command
unfolding quit_command
quit_command-Local [] = answer_lem _
quit_command-Local (c ∷ []) = λ ctx w o.
    let s = answer_lem (echo [] ctx w).reply ctx w o in record { owned = o; apart = s.apart }
quit_command-Local (c ∷ a ∷ rest) = answer_lem _

pub command_command-Local : (names : List Bytes) → Local (command_command names)
unfolding command_command
command_command-Local names [] = answer_lem _
command_command-Local names (c ∷ []) = answer_lem _
command_command-Local names (c ∷ sub ∷ []) = answer_lem _
command_command-Local names (c ∷ sub ∷ a ∷ rest) = answer_lem _
