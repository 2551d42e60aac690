-- ===== src/Winapi/Constants/Controls.antt =====
-- winapi/service.go: the controls and the accepted controls that only callers may use.
use winsvc.Prelude.{ℕ}

abbrev pub service_no_change : ℕ
service_no_change = 0xffffffff

abbrev pub service_accept_paramchange : ℕ
service_accept_paramchange = 8

abbrev pub service_accept_netbindchange : ℕ
service_accept_netbindchange = 16

abbrev pub service_accept_hardwareprofilechange : ℕ
service_accept_hardwareprofilechange = 32

abbrev pub service_accept_powerevent : ℕ
service_accept_powerevent = 64

abbrev pub service_accept_sessionchange : ℕ
service_accept_sessionchange = 128

abbrev pub service_accept_timechange : ℕ
service_accept_timechange = 512

abbrev pub service_accept_triggerevent : ℕ
service_accept_triggerevent = 1024

abbrev pub service_accept_usermodereboot : ℕ
service_accept_usermodereboot = 2048

abbrev pub service_control_paramchange : ℕ
service_control_paramchange = 6

abbrev pub service_control_netbindadd : ℕ
service_control_netbindadd = 7

abbrev pub service_control_netbindremove : ℕ
service_control_netbindremove = 8

abbrev pub service_control_netbindenable : ℕ
service_control_netbindenable = 9

abbrev pub service_control_netbinddisable : ℕ
service_control_netbinddisable = 10

abbrev pub service_control_deviceevent : ℕ
service_control_deviceevent = 11

abbrev pub service_control_hardwareprofilechange : ℕ
service_control_hardwareprofilechange = 12

abbrev pub service_control_powerevent : ℕ
service_control_powerevent = 13

abbrev pub service_control_sessionchange : ℕ
service_control_sessionchange = 14

abbrev pub service_control_timechange : ℕ
service_control_timechange = 16

abbrev pub service_control_triggerevent : ℕ
service_control_triggerevent = 0x00000020

abbrev pub service_control_usermodereboot : ℕ
service_control_usermodereboot = 0x00000040
