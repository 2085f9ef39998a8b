-- ===== src/Net/Command/Valid.antt =====
-- The validation of a command decides `IsValidCommand`.
use seed_origin.Base.{◌≡◌, arith, ok}
use seed_origin.Net.Command.{NetworkCommand, validate_command, IsValidCommand}

pub validate_command-IsValid : (c : NetworkCommand) → validate_command c ≡ ok tt → IsValidCommand c
unfolding validate_command
validate_command-IsValid c h = ground arith

pub IsValidCommand-validate : (c : NetworkCommand) → IsValidCommand c → validate_command c ≡ ok tt
unfolding validate_command
IsValidCommand-validate c v = ground arith
