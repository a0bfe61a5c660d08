-- ===== src/Scpi/Parser.antt =====
-- The SCPI_Parser library as src/riden_scpi/riden_scpi.cpp uses it, and the shape of a command.
use riden_dongle.Base.{ℕ, Bool, Option, none, some, String, ℤ, List}
use riden_dongle.Modbus.Env.{Env}
use riden_dongle.Modbus.State.{RidenModbus, Outcome, ok, fail, hung, M}

-- The units that the commands tell apart.
pub data NumberUnit : Type 0 where
  unit_none unit_volt unit_amper unit_other : NumberUnit

-- `SCPI_ERROR_COMMAND`, `SCPI_ERROR_ILLEGAL_PARAMETER_VALUE`, `SCPI_ERROR_DATA_TYPE_ERROR`.
pub data ScpiError : Type 0 where
  command illegal_parameter_value data_type_error : ScpiError

-- The entries of a list of choices with their tags.
abbrev pub Choices : Type 0
Choices = List (String × ℤ)

-- `scpi_t`, what the library takes from a command's parameters, and what it writes of a result.
pub record Parser (E : Env) : Type 1 where
  pub Context : Type 0
  pub Parameter : Type 0
  pub param_unsigned_int : Context → Option ℕ × Context
  pub param_bool : Context → Option Bool × Context
  pub param_number : Context → Option (E.Double × NumberUnit) × Context
  pub param_choice : Choices → Context → Option ℤ × Context
  pub parameter : Context → Option Parameter × Context
  pub param_to_choice : Parameter → Choices → Context → Option ℤ × Context
  pub param_to_int : Parameter → Context → Option ℤ × Context
  pub error_push : ScpiError → Context → Context
  pub result_double : E.Double → Context → Context
  pub result_bool : Bool → Context → Context
  pub result_text : String → Context → Context
  pub result_mnemonic : String → Context → Context
  pub result_int32 : ℤ → Context → Context
  pub result_uint8 : ℕ → Context → Context
  pub result_uint16 : ℕ → Context → Context

module _ (E : Env) (P : Parser E) where
  -- A command returns `SCPI_RES_OK` or `SCPI_RES_ERR`, unless the driver does not return.
  pub data Reply : Type 0 where
    res_ok : RidenModbus E → P.Context → Reply
    res_err : RidenModbus E → P.Context → Reply
    stuck : Reply

  abbrev pub Command : Type 0
  Command = RidenModbus E → P.Context → Reply

module _ {E : Env} (P : Parser E) where
  -- `SCPI_ErrorPush(context, error); return SCPI_RES_ERR;`
  abbrev pub refuse : ScpiError → Command E P
  refuse error s c = res_err s (P.error_push error c)

  -- The end of a command: what follows a driver call, by whether it returned true.
  abbrev pub report {ℓ} :
      {A : Type ℓ} → (A → P.Context → P.Context) → P.Context → Outcome (RidenModbus E) A → Reply E P
  report f c (ok a s) = res_ok s (f a c)
  report f c (fail s) = refuse command s c
  report f c hung = stuck

  abbrev pub query {ℓ} : {A : Type ℓ} → M E A → (A → P.Context → P.Context) → Command E P
  query m f s c = report f c (m s)

  abbrev pub perform : M E (Unit {0}) → Command E P
  perform m s c = report (λ _ c. c) c (m s)

  -- `if (!SCPI_Param...(...)) return SCPI_RES_ERR;`
  abbrev pub required {ℓ} :
      {A : Type ℓ} → (A → Command E P) → RidenModbus E → Option A × P.Context → Reply E P
  required k s (none, c) = res_err s c
  required k s (some a, c) = k a s c

  abbrev pub require {ℓ} :
      {A : Type ℓ} → (P.Context → Option A × P.Context) → (A → Command E P) → Command E P
  require p k s c = required k s (p c)
