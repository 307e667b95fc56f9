-- ===== src/Ftp/Address.antt =====
-- Which listen addresses the FTP server takes.
use dftp.Base.{
  refl, Bool, true, Bool-cases, inl, inr, ℤ, List, [], ◌∷◌, ◌++◌, Option, none, some, Text, byte_eq,
  ◌≡◌, All, ap, ◌∙◌, sym, ◌↔◌,
}
use dftp.Strings.{split, join}
use dftp.Strings.Laws.{Lacks, split-Lacks, split-append, split-All, join-split}
use dftp.Strings.Number.{atoi}
use dftp.Ftp.Server.{listens, cannot_listen, parsed_port, serve_parts, serve_ftp}

-- An address `host:port` with a number for its port.
pub record IsListenAddress (addr : Text) (n : ℤ) : Type 0 where
  pub host : Text
  pub port : Text
  pub host_plain : Lacks b':' host
  pub port_plain : Lacks b':' port
  pub written : addr ≡ host ++ b':' ∷ port
  pub number : atoi port ≡ some n

module _ (library : ℤ → Bool) where
  parsed :
      (o : Option ℤ) (n : ℤ) → parsed_port library o ≡ listens n → (o ≡ some n) × (library n ≡ true)
  parsed none n e = cc
  parsed (some m) n e = elim (Bool-cases (library m)) [
    | inl t ↦
        let same : listens m ≡ listens n = rw t at e in
        let eq : m ≡ n = cc in (ap some eq, rw (sym eq) t)
    | inr f ↦ let other : cannot_listen ≡ listens n = rw f at e in cc
  ]

  from_parts :
      (addr : Text) (n : ℤ) (parts : List Text)
      → join parts (b':' ∷ []) ≡ addr
      → All (Lacks b':') parts
      → serve_parts library parts ≡ listens n
      → IsListenAddress addr n × (library n ≡ true)
  unfolding join
  from_parts addr n [] j h e = cc
  from_parts addr n (a ∷ []) j h e = cc
  from_parts addr n (a ∷ b ∷ []) j h e =
      let (number, taken) = parsed (atoi b) n e in
      (
        record {
          host = a;
          port = b;
          host_plain = h.0;
          port_plain = h.1.0;
          written = sym j;
          number = number;
        },
        taken,
      )
  from_parts addr n (a ∷ b ∷ c ∷ rest) j h e = cc

  -- The FTP server goes on to serve, with a port that it hands to the library, exactly if its address has
  -- the form `host:port`, the port is that number, and the library listens when it is given it, whatever
  -- the host; else it ends the program.
  pub serve_ftp_lem :
      (addr : Text) (n : ℤ)
      → (serve_ftp library addr ≡ listens n) ↔ (IsListenAddress addr n × (library n ≡ true))
  unfolding serve_ftp
  serve_ftp_lem addr n = (
    λ e. from_parts addr n (split addr b':') (join-split addr b':') (split-All addr b':') e,
    λ (a, taken).
        ap (λ s. serve_parts library (split s b':')) a.written
        ∙ ap (serve_parts library) (
            split-append a.host a.port b':' a.host_plain
            ∙ ap (λ r. a.host ∷ r) (split-Lacks a.port b':' a.port_plain))
        ∙ ap (parsed_port library) a.number
        ∙ rw taken refl,
  )
