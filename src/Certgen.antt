-- ===== src/Certgen.antt =====
-- src/certgen.rs, and run_gen_cert of src/main.rs: certificates that are made by hand, from the command
-- line.
use supershare.Base.{
  ℕ, ◌≡◌, false, Option, none, some, List, [], ◌∷◌, ◌++◌, Text, codes, is_some, if◌then◌else◌,
  arith, Option-cases, inl, inr,
}
use supershare.Base.Outcome.{err, ok_or, map_err}
use supershare.Cert.{Issuer, CertificateParams, CertError, load_ca, to_ia5}
use supershare.Cert.CertError.{sign_failed, key_failed, request_failed}
use supershare.Cert.Authority.{IoError, create_failed, read_failed, write_failed, certificate}
use supershare.Config.{FilePath}
use supershare.Config.Trust.{Disk, join}
use supershare.FileIo.{
  FileIo, lift, ◌>>=◌, ◌>>◌, map_error, create_dir_all, read_to_string, write_file,
}

-- A step of rcgen that gives nothing fails.
abbrev made : Option Text → CertError → FileIo IoError Text
made o e = lift (map_err (ok_or o e) certificate)

unfoldable pub generate_ca : Issuer → FilePath → ℕ → FileIo IoError (Unit {0})
unfolding create_dir_all write_file
generate_ca i output_dir seed = do
  create_dir_all create_failed output_dir
  base ← made (i.rcgen.params_new (codes "SuperShare CA")) request_failed
  key_pair ← made (i.rcgen.generate_key seed) key_failed
  let params : CertificateParams = record {
    base = base;
    common_name = codes "SuperShare Root CA";
    organization = some (codes "SuperShare");
    is_ca = false;
    dns_names = [];
    ip_addresses = [];
  }
  cert ← made (i.self_sign params key_pair) sign_failed
  write_file write_failed (join output_dir (codes "ca.pem")) cert
  write_file write_failed (join output_dir (codes "ca-key.pem")) key_pair

-- The name is not made safe: a character that is not ASCII is an error.
unfoldable pub generate_device_cert :
    Issuer
    → (output_dir ca_cert_path ca_key_path : FilePath) → (device_name : Text) → List Text
    → ℕ
    → FileIo IoError (Unit {0})
unfolding create_dir_all read_to_string write_file load_ca
generate_device_cert i output_dir ca_cert_path ca_key_path device_name extra_ips seed = do
  create_dir_all create_failed output_dir
  ca_cert_pem ← read_to_string read_failed ca_cert_path
  ca_key_pem ← read_to_string read_failed ca_key_path
  (ca_cert, ca_key) ← lift (map_err (load_ca i.rcgen ca_cert_pem ca_key_pem) certificate)
  base ← made (i.rcgen.params_new device_name) request_failed
  device_dns ← made (to_ia5 device_name) request_failed
  localhost_dns ← made (to_ia5 (codes "localhost")) request_failed
  let params : CertificateParams = record {
    base = base;
    common_name = device_name;
    organization = none;
    is_ca = false;
    dns_names = device_dns ∷ localhost_dns ∷ [];
    ip_addresses = codes "127.0.0.1" ∷ extra_ips;
  }
  key_pair ← made (i.rcgen.generate_key seed) key_failed
  cert ← made (i.issue params key_pair ca_cert ca_key) sign_failed
  write_file write_failed (join output_dir (device_name ++ codes ".pem")) cert
  write_file write_failed (join output_dir (device_name ++ codes "-key.pem")) key_pair

pub data GenError : Type 0 where
  ca_cert_required ca_key_required invalid_ip : GenError
  io : IoError → GenError

-- `collect` into a result: the addresses, if all of them parse.
unfoldable pub parse_all : (Text → Option Text) → List Text → Option (List Text)
parse_all parse [] = some []
parse_all parse (s ∷ rest) = elim (parse s) [
  | none ↦ none
  | some ip ↦ elim (parse_all parse rest) [ none ↦ none | some ips ↦ some (ip ∷ ips) ]
]

-- `parse` is `IpAddr::from_str`.
unfoldable pub run_gen_cert :
    Issuer
    → (parse : Text → Option Text) → (output : FilePath) → (device : Option Text)
    → (ca_cert ca_key : Option FilePath) → (ips : List Text) → ℕ
    → FileIo GenError (Unit {0})
unfolding parse_all generate_ca generate_device_cert
run_gen_cert i parse output none ca_cert ca_key ips seed = map_error (generate_ca i output seed) io
run_gen_cert i parse output (some device_name) ca_cert ca_key ips seed = do
  ca_cert_path ← lift (ok_or ca_cert ca_cert_required)
  ca_key_path ← lift (ok_or ca_key ca_key_required)
  extra_ips ← lift (ok_or (parse_all parse ips) invalid_ip)
  map_error (generate_device_cert i output ca_cert_path ca_key_path device_name extra_ips seed) io

-- What stops a request for a device's certificate before anything is read or written.
unfoldable pub refusal :
    (parse : Text → Option Text)
    → (ca_cert ca_key : Option FilePath) → (ips : List Text) → Option GenError
refusal parse ca_cert ca_key ips =
    if is_some ca_cert
    then (if is_some ca_key
        then (if is_some (parse_all parse ips) then none else some invalid_ip)
        else some ca_key_required)
    else some ca_cert_required

-- A device's certificate that is asked for without a CA certificate, without a CA key or with an address
-- that does not parse is refused, with the first of these errors, and the disk stays as it is.
pub run_gen_cert_refused :
    (i : Issuer) (parse : Text → Option Text) (output : FilePath) (device_name : Text)
    → (ca_cert ca_key : Option FilePath) (ips : List Text) (seed : ℕ) (d : Disk) (e : GenError)
    → refusal parse ca_cert ca_key ips ≡ some e
    → run_gen_cert i parse output (some device_name) ca_cert ca_key ips seed d ≡ (d, err e)
unfolding run_gen_cert refusal
run_gen_cert_refused i parse output device_name none ca_key ips seed d e h = ground arith
run_gen_cert_refused i parse output device_name (some c) none ips seed d e h = ground arith
run_gen_cert_refused i parse output device_name (some c) (some k) ips seed d e h =
    elim (Option-cases (parse_all parse ips)) [
      | inl bad ↦ ground (arith, bad)
      | inr (good, hg) ↦ absurd (ground (arith, hg))
    ]
