-- ===== src/Logger/Macro.antt =====
-- The LOG macros (wheel/logger/logger_macros.h). What the arguments of the caller are printed as is
-- the parameter `rest`.
use lynne_social.Prelude.{
  ℕ, zero, suc, ◌-◌, ◌<◌, ◌≤◌, ◌≡◌, refl, ap, ◌≢◌, pos, ◌∙◌, Option, none, some, [], ◌∷◌, ◌++◌,
  Text, txt, until_zero, take, length, length-take-le, arith, All, if◌then◌else◌, ◌==◌,
}
use mathlib.Core.List.{append_assoc}
use lynne_social.Prelude.Numerals.{to_string}
use lynne_social.Logger.{Spdlog, SpdlogLogger, LogLevel, Logs, log}

-- std::snprintf into a buffer of `size` bytes, read again as a text
unfoldable pub snprintf : ℕ → Text → Text
unfolding until_zero
snprintf size s = until_zero (take (size - 1) s)

-- "[%s][%s:%d] " fmt
unfoldable pub formatted : Text → Text → ℕ → Text → Text
unfolding txt to_string
formatted unit file line rest =
    txt "["
    ++ (unit ++ (txt "][" ++ (file ++ (txt ":" ++ (to_string (pos line) ++ (txt "] " ++ rest))))))

-- LOG_DEBUG, LOG_INFO, LOG_WARN and LOG_ERROR; the logger is g_logger_ptr.
unfoldable pub log_macro :
    (P : Spdlog) → LogLevel → Option SpdlogLogger → Text → Text → ℕ → Text → Logs P → Logs P
unfolding snprintf formatted
log_macro P level none unit file line rest w = w
log_macro P level (some s) unit file line rest w =
    log P s level (snprintf 4096 (formatted unit file line rest)) w

until_zero_prefix : (s : Text) → (cut : Text) × (s ≡ until_zero s ++ cut)
unfolding until_zero
until_zero_prefix [] = ([], refl)
until_zero_prefix (c ∷ s) =
    let (cut, e) = until_zero_prefix s in (if c == 0 then c ∷ s else cut, ground arith)

take_prefix : (n : ℕ) (s : Text) → (cut : Text) × (s ≡ take n s ++ cut)
take_prefix zero s = (s, refl)
take_prefix (suc n) [] = ([], refl)
take_prefix (suc n) (c ∷ s) = let (cut, e) = take_prefix n s in (cut, ap (λ s. c ∷ s) e)

snprintf_prefix : (size : ℕ) (s : Text) → (cut : Text) × (s ≡ snprintf size s ++ cut)
unfolding snprintf
snprintf_prefix size s =
    let (c, e) = take_prefix (size - 1) s in
    let (d, f) = until_zero_prefix (take (size - 1) s) in
    (d ++ c, e ∙ (ap (λ t. t ++ c) f ∙ append_assoc (until_zero (take (size - 1) s)) d c))

length-until_zero-le : (s : Text) → length (until_zero s) ≤ length s
unfolding until_zero
length-until_zero-le [] = omega arith
length-until_zero-le (c ∷ s) = ground (arith, length-until_zero-le s)

length-snprintf-lt : (size : ℕ) (s : Text) → 0 < size → length (snprintf size s) < size
unfolding snprintf
length-snprintf-lt size s h =
    omega (arith, length-until_zero-le (take (size - 1) s), length-take-le (size - 1) s)

take_whole : (n : ℕ) (s : Text) → length s ≤ n → All (λ c. c ≢ 0) s → until_zero (take n s) ≡ s
unfolding until_zero
take_whole zero [] h z = refl
take_whole zero (c ∷ s) h z = elim h [ ]
take_whole (suc n) [] h z = refl
take_whole (suc n) (c ∷ s) h z = ground (arith, take_whole n s)

snprintf_whole : (size : ℕ) (s : Text) → length s < size → All (λ c. c ≢ 0) s → snprintf size s ≡ s
unfolding snprintf
snprintf_whole size s h z = take_whole (size - 1) s (omega arith) z

-- What a macro hands to `log` of a text.
pub record Handed (text message : Text) : Type 0 where
  pub short : length message < 4096
  pub start : (cut : Text) × (text ≡ message ++ cut)
  pub whole : length text < 4096 → All (λ c. c ≢ 0) text → message ≡ text

-- With a global logger, a LOG macro makes one call of log, with a message of less than 4096 bytes
-- that is a first part of the formatted text, and is all of it when that is shorter than 4096
-- bytes and has no zero byte.
pub log_macro_bounded :
    (P : Spdlog) (level : LogLevel) (s : SpdlogLogger) (unit file : Text) (line : ℕ) (rest : Text)
    (w : Logs P)
    → (message : Text) × (log_macro P level (some s) unit file line rest w
        ≡ log P s level message w)
      × Handed (formatted unit file line rest) message
unfolding log_macro
log_macro_bounded P level s unit file line rest w = (
  snprintf 4096 (formatted unit file line rest),
  refl,
  record {
    short = length-snprintf-lt 4096 (formatted unit file line rest) (omega arith);
    start = snprintf_prefix 4096 (formatted unit file line rest);
    whole = snprintf_whole 4096 (formatted unit file line rest);
  },
)
