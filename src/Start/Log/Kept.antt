-- ===== src/Start/Log/Kept.antt =====
-- log.c: which messages reach syslog.
use ftp_server.Prelude.{
  ℕ, ◌≡◌, refl, sym, ap, ◌∙◌, Bool, true, false, ◌&&◌, List, [], ◌∷◌, ◌++◌, append_assoc,
  append-nil, if◌then◌else◌, Bytes, Bool-cases, inl, inr,
}
use ftp_server.Text.Ctype.{codes}
use ftp_server.Config.Settings.{Settings}
use ftp_server.Start.Log.{
  Log, Urgency, log_err, log_warning, log_info, log_debug, urgency_code, vlogger, log_fatal,
  log_warn, log_inform, log_dbg, start_log, Message, log_message, log_messages,
}

-- What a message gives syslog, once it is enabled.
abbrev pub entry_of : Settings → Message → List (ℕ × Bytes)
entry_of config m = elim m.urgency [
  | log_debug ↦ if config.debug then (urgency_code log_debug, m.text) ∷ [] else []
  | u ↦ (urgency_code u, m.text) ∷ []
]

abbrev pub entries_of : Settings → List Message → List (ℕ × Bytes)
entries_of config [] = []
entries_of config (m ∷ ms) = entry_of config m ++ entries_of config ms

-- `entries` are given to syslog where it is configured and enabled.
gives :
    (c e : Bool) (xs ys : List (ℕ × Bytes))
    → e ≡ true
    → (if c && e then xs ++ ys else xs) ≡ xs ++ (if c then ys else [])
gives true true xs ys h = refl
gives false true xs ys h = sym (append-nil xs)
gives c false xs ys h = cc

withholds : (c e : Bool) (xs ys : List (ℕ × Bytes)) → e ≡ false → (if c && e then ys else xs) ≡ xs
withholds true true xs ys h = cc
withholds true false xs ys h = refl
withholds false e xs ys h = refl

nothing_more : (c : Bool) (xs : List (ℕ × Bytes)) → xs ≡ xs ++ (if c then [] else [])
nothing_more true xs = sym (append-nil xs)
nothing_more false xs = sym (append-nil xs)

-- A message that is shown, or a debug message that is not.
module _ (config : Settings) (pid : ℕ) (log : Log) where
  abbrev Gives : Log → List (ℕ × Bytes) → Type 0
  Gives log' ys =
      (log'.syslog_enabled ≡ true)
      × (log'.syslog ≡ log.syslog ++ (if config.syslog then ys else []))

  abbrev Withholds : Log → Type 0
  Withholds log' = (log'.syslog_enabled ≡ false) × (log'.syslog ≡ log.syslog)

  vlogger-Gives :
      (u : Urgency) (t : Bytes)
      → log.syslog_enabled ≡ true
      → Gives (vlogger config pid u t log) ((urgency_code u, t) ∷ [])
  unfolding vlogger
  vlogger-Gives u t e = (e, gives config.syslog log.syslog_enabled log.syslog _ e)

  vlogger-Withholds :
      (u : Urgency) (t : Bytes)
      → log.syslog_enabled ≡ false
      → Withholds (vlogger config pid u t log)
  unfolding vlogger
  vlogger-Withholds u t e = (e, withholds config.syslog log.syslog_enabled log.syslog _ e)

  log_dbg-Gives :
      (b : Bool) (t : Bytes)
      → log.syslog_enabled ≡ true
      → Gives
          (if b then vlogger config pid log_debug t log else log)
          (if b then (urgency_code log_debug, t) ∷ [] else [])
  log_dbg-Gives true t e = vlogger-Gives log_debug t e
  log_dbg-Gives false t e = (e, nothing_more config.syslog log.syslog)

  log_dbg-Withholds :
      (b : Bool) (t : Bytes)
      → log.syslog_enabled ≡ false
      → Withholds (if b then vlogger config pid log_debug t log else log)
  log_dbg-Withholds true t e = vlogger-Withholds log_debug t e
  log_dbg-Withholds false t e = (e, refl)

  log_message-Gives :
      (u : Urgency) (t : Bytes)
      → log.syslog_enabled ≡ true
      → Gives
          (log_message config pid (record { urgency = u; text = t }) log)
          (entry_of config (record { urgency = u; text = t }))
  unfolding log_message log_fatal log_warn log_inform log_dbg
  log_message-Gives log_err t e = vlogger-Gives log_err t e
  log_message-Gives log_warning t e = vlogger-Gives log_warning t e
  log_message-Gives log_info t e = vlogger-Gives log_info t e
  log_message-Gives log_debug t e = log_dbg-Gives config.debug t e

  log_message-Withholds :
      (u : Urgency) (t : Bytes)
      → log.syslog_enabled ≡ false
      → Withholds (log_message config pid (record { urgency = u; text = t }) log)
  unfolding log_message log_fatal log_warn log_inform log_dbg
  log_message-Withholds log_err t e = vlogger-Withholds log_err t e
  log_message-Withholds log_warning t e = vlogger-Withholds log_warning t e
  log_message-Withholds log_info t e = vlogger-Withholds log_info t e
  log_message-Withholds log_debug t e = log_dbg-Withholds config.debug t e

both_given :
    (c : Bool) (xs ys zs : List (ℕ × Bytes))
    → (xs ++ (if c then ys else [])) ++ (if c then zs else []) ≡ xs ++ (if c then ys ++ zs else [])
both_given true xs ys zs = append_assoc xs ys zs
both_given false xs ys zs = append-nil _

module _ (config : Settings) (pid : ℕ) where
  log_messages-Gives :
      (ms : List Message) (log : Log)
      → log.syslog_enabled ≡ true
      → Gives config pid log (log_messages config pid ms log) (entries_of config ms)
  unfolding log_messages
  log_messages-Gives [] log e = (e, nothing_more config.syslog log.syslog)
  log_messages-Gives (m ∷ ms) log e =
      let one = log_message-Gives config pid log m.urgency m.text e in
      let all = log_messages-Gives ms (log_message config pid m log) one.0 in
      (
        all.0,
        all.1
            ∙ ap (λ xs. xs ++ (if config.syslog then entries_of config ms else [])) one.1
            ∙ both_given config.syslog log.syslog (entry_of config m) (entries_of config ms),
      )

  log_messages-Withholds :
      (ms : List Message) (log : Log)
      → log.syslog_enabled ≡ false
      → Withholds config pid log (log_messages config pid ms log)
  unfolding log_messages
  log_messages-Withholds [] log e = (e, refl)
  log_messages-Withholds (m ∷ ms) log e =
      let one = log_message-Withholds config pid log m.urgency m.text e in
      let all = log_messages-Withholds ms (log_message config pid m log) one.0 in
      (all.0, all.1 ∙ one.1)

abbrev pub starting : Message
starting = record { urgency = log_debug; text = codes "Starting log\n" }

module _ (config : Settings) (pid : ℕ) (after : List Message) (log : Log) where
  abbrev pub all_logged : Log
  all_logged = log_messages config pid after (start_log config pid log)

  configured :
      config.syslog ≡ true
      → log.syslog_enabled ≡ false
      → all_logged.syslog
        ≡ log.syslog ++ (if config.syslog then entries_of config (starting ∷ after) else [])
  unfolding start_log log_messages log_message
  configured c e =
      ap
        (λ b.
          (log_messages config pid (starting ∷ after)
            (if b then record log { syslog_enabled = true; connected = true } else log)).syslog)
        c
      ∙ (log_messages-Gives config pid (starting ∷ after)
          (record log { syslog_enabled = true; connected = true }) refl).1

  unconfigured :
      config.syslog ≡ false
      → log.syslog_enabled ≡ false
      → all_logged.syslog
        ≡ log.syslog ++ (if config.syslog then entries_of config (starting ∷ after) else [])
  unfolding start_log log_messages log_message
  unconfigured c e =
      ap
        (λ b.
          (log_messages config pid (starting ∷ after)
            (if b then record log { syslog_enabled = true; connected = true } else log)).syslog)
        c
      ∙ (log_messages-Withholds config pid (starting ∷ after) log e).1
      ∙ sym (append-nil log.syslog)
      ∙ ap (λ b. log.syslog ++ (if b then entries_of config (starting ∷ after) else [])) (sym c)

-- From a log that is not started: the messages in front of `start_log` reach syslog in no case, and
-- those behind it, with its own, reach it in their order and with their urgencies, debug messages only
-- with the debug setting, exactly if syslog is configured.
pub start_log-Gives :
    (config : Settings) (pid : ℕ) (before after : List Message) (log : Log)
    → log.syslog_enabled ≡ false
    → (all_logged config pid after (log_messages config pid before log)).syslog
      ≡ log.syslog ++ (if config.syslog then entries_of config (starting ∷ after) else [])
start_log-Gives config pid before after log e =
    let front = log_messages-Withholds config pid before log e in
    let mid = log_messages config pid before log in
    elim (Bool-cases config.syslog) [
      | inl c ↦ configured config pid after mid c front.0
      | inr c ↦ unconfigured config pid after mid c front.0
    ]
    ∙ ap (λ xs. xs ++ (if config.syslog then entries_of config (starting ∷ after) else [])) front.1
