-- ===== src/Error.antt =====
-- kernel/error.hpp: the error codes, without the file and line that an Error also carries.
use mikan_os.Prelude.{Bool, true, false}

-- `Error::Code`.
pub data Code : Type 0 where
  success full empty no_enough_memory index_out_of_range host_controller_not_halted : Code
  invalid_slot_id port_not_connected invalid_endpoint_number transfer_ring_not_set : Code
  already_allocated not_implemented invalid_descriptor buffer_too_small unknown_device : Code
  no_corresponding_setup_stage transfer_failed invalid_phase unknown_xhci_speed_id : Code
  no_waiter no_pci_msi unknown_pixel_format no_such_task invalid_format frame_too_small : Code
  invalid_file is_directory no_such_entry free_type_error : Code

-- `Error::operator bool`: whether there is an error.
abbrev pub failed : Code → Bool
failed Code.success = false
failed _ = true

-- `WithError<T>`.
pub record WithError (A : Type 0) : Type 0 where
  pub value : A
  pub error : Code
