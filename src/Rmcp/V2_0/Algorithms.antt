-- ===== src/Rmcp/V2_0/Algorithms.antt =====
-- The algorithms of RMCP+, and the privilege levels, as bytes: algorithms.rs and mod.rs of
-- ipmi-rs-core/src/app/auth.
use ipmi_rs.Base.{ℕ, Option, none, some, ◌==◌, if◌then◌else◌, bit_and}

pub data AuthenticationAlgorithm : Type 0 where
  rakp_none rakp_hmac_sha1 rakp_hmac_md5 rakp_hmac_sha256 : AuthenticationAlgorithm

pub data ConfidentialityAlgorithm : Type 0 where
  no_confidentiality aes_cbc128 xrc4_128 xrc4_40 : ConfidentialityAlgorithm

pub data IntegrityAlgorithm : Type 0 where
  no_integrity hmac_sha1_96 hmac_md5_128 md5_128 hmac_sha256_128 : IntegrityAlgorithm

pub data PrivilegeLevel : Type 0 where
  callback user operator administrator oem_proprietary : PrivilegeLevel

abbrev pub authentication_code : AuthenticationAlgorithm → ℕ
authentication_code rakp_none = 0
authentication_code rakp_hmac_sha1 = 1
authentication_code rakp_hmac_md5 = 2
authentication_code rakp_hmac_sha256 = 3

unfoldable pub authentication_of_u8 : ℕ → Option AuthenticationAlgorithm
authentication_of_u8 v =
    if v == 0
    then some rakp_none
    else if v == 1
    then some rakp_hmac_sha1
    else if v == 2
    then some rakp_hmac_md5
    else if v == 3
    then some rakp_hmac_sha256
    else none

abbrev pub confidentiality_code : ConfidentialityAlgorithm → ℕ
confidentiality_code no_confidentiality = 0
confidentiality_code aes_cbc128 = 1
confidentiality_code xrc4_128 = 2
confidentiality_code xrc4_40 = 3

unfoldable pub confidentiality_of_u8 : ℕ → Option ConfidentialityAlgorithm
confidentiality_of_u8 v =
    if v == 0
    then some no_confidentiality
    else if v == 1
    then some aes_cbc128
    else if v == 2
    then some xrc4_128
    else if v == 3
    then some xrc4_40
    else none

abbrev pub integrity_code : IntegrityAlgorithm → ℕ
integrity_code no_integrity = 0
integrity_code hmac_sha1_96 = 1
integrity_code hmac_md5_128 = 2
integrity_code md5_128 = 3
integrity_code hmac_sha256_128 = 4

unfoldable pub integrity_of_u8 : ℕ → Option IntegrityAlgorithm
integrity_of_u8 v =
    if v == 0
    then some no_integrity
    else if v == 1
    then some hmac_sha1_96
    else if v == 2
    then some hmac_md5_128
    else if v == 3
    then some md5_128
    else if v == 4
    then some hmac_sha256_128
    else none

abbrev pub privilege_code : PrivilegeLevel → ℕ
privilege_code callback = 1
privilege_code user = 2
privilege_code operator = 3
privilege_code administrator = 4
privilege_code oem_proprietary = 5

abbrev level_of : ℕ → Option PrivilegeLevel
level_of v =
    if v == 1
    then some callback
    else if v == 2
    then some user
    else if v == 3
    then some operator
    else if v == 4
    then some administrator
    else if v == 5
    then some oem_proprietary
    else none

unfoldable pub privilege_of_u8 : ℕ → Option PrivilegeLevel
privilege_of_u8 v = level_of (bit_and v 0x0f)
