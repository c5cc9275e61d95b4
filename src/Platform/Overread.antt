-- ===== src/Platform/Overread.antt =====
-- What `%s` does with received bytes when the peer sends text without a NUL: it reads on past them.
use linux_tutorial.Prelude.{◌≡◌, none}
use linux_tutorial.Prog.Logic.{Monitor}
use linux_tutorial.Platform.{
  Call, Reply, recv, ssl_read, mq_receive, printf_text, puts_text, c_string,
}
use linux_tutorial.Platform.Strings.{IsText}

-- Every line with a buffer prints one in which no NUL ends the bytes that were written.
abbrev pub ReadsOn : Call → Type 0
ReadsOn (printf_text _ _ buf) = c_string buf ≡ none
ReadsOn (puts_text _ buf) = c_string buf ≡ none
ReadsOn _ = Unit

abbrev pub TextCame : (c : Call) → Reply c → Type 0
TextCame (recv _ _) r = IsText r.bytes
TextCame (ssl_read _ _) r = IsText r.bytes
TextCame (mq_receive _ _) r = IsText r.bytes
TextCame _ _ = Unit

abbrev pub overread : Monitor Call Reply
overread = record {
  State = Unit {0};
  Allowed = λ _. ReadsOn;
  Documented = λ _. TextCame;
  next = λ _ _ _. tt;
}
