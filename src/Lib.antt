-- ===== src/Lib.antt =====
-- A verification library for the kernel in kernel/.
--
-- Error (kernel/error.hpp) has the error codes and Message (kernel/message.hpp) the messages between
-- tasks. Prelude has the shared names, lists over native numbers and the binary digits of the bit
-- operations.
--
-- Memory (kernel/memory_manager.hpp, kernel/memory_manager.cpp, kernel/memory_map.hpp) is the frame
-- allocator: BitmapMemoryManager with get_bit, set_bit, free, mark_allocated, set_memory_range and
-- allocate for the methods of those names. A frame is its number. `size_t` sums wrap. The array has no
-- bounds check in C++: here a read past its end gives 0 and a write changes nothing, and the
-- theorems assume or show that accesses lie inside. The outer loop of Allocate takes one unit of fuel
-- for each round; every round starts at a later frame, so the length of the range and one more suffice.
-- Memory.Boot is InitializeMemoryManager: read_map is its loop over the descriptors, managed the state
-- before the heap is taken, initialize_heap its last call.
--
-- Task (kernel/task.hpp, kernel/task.cpp) is the scheduler: TaskManager with a function for each
-- method, and the message queue of a Task. A pointer to a task is the task's id, registers are of an
-- abstract type, and a function that may switch to another task takes the caller's registers and
-- returns those that the processor goes on with, which is what SwitchContext and RestoreContext of
-- kernel/asmfunc.asm do. WaitFinish is one round of its loop, which the caller repeats when it is
-- woken. Task.System is the relation of all calls, Task.Fair runs of the timer interrupt, and
-- Task.Deliver what messages and exit codes do. The frame allocator and the scheduler do not call
-- each other.
--
-- Timer (kernel/timer.hpp, kernel/timer.cpp) is TimerManager over the scheduler: Tick sends its messages
-- by send_message and on_interrupt, LAPICTimerOnInterrupt, switches the task by switch_task. The
-- priority queue is an ascending list. The loop of Tick takes one unit of fuel for each timer that has
-- run out, so the length of the queue and one more suffice.
--
-- Fat (kernel/fat.hpp, kernel/fat.cpp) has cluster chains, ExtendCluster and AllocateClusterChain, and the
-- reading half of FileDescriptor. The volume is memory without bounds: the table is a function from
-- clusters to entries, and the clusters a function to bytes. ExtendCluster and AllocateClusterChain
-- look for free clusters for as long as it takes, so their fuel is an argument, and the theorems ask
-- that it reaches the free clusters. Read takes one unit for each byte, Load one for each cluster that
-- it skips and one more, at most the offset and one more. Fat.Names has the names of 8 and 3 characters,
-- Fat.Directory FindFile, AllocateEntry and CreateFile, over the entries of each cluster, which the C++
-- code sees in the same memory as the bytes. A chain may be a circle there, so the fuel is an argument.
-- Fat.Write is Write, over ExtendCluster and AllocateClusterChain.
--
-- ArrayMap (kernel/usb/arraymap.hpp) is the map that the USB driver keeps in an array of slots. Ring
-- (kernel/usb/xhci/ring.hpp, kernel/usb/xhci/ring.cpp) is the ring of commands and transfers: Push writes
-- an entry with the cycle bit and goes on at the start at the end of the array. The reader of
-- Ring.Reader stands for the host controller. Pool (kernel/usb/memory.hpp, kernel/usb/memory.cpp) is
-- AllocMem, from which the array of a ring comes: alloc_mem's result is an argument of initialize_ring.
--
-- Graphics (kernel/graphics.hpp) has points, rectangles and colours over integers, since a sum past the
-- range of int is undefined. Graphics.Buffer (kernel/frame_buffer.hpp, kernel/frame_buffer.cpp and the
-- writers of kernel/graphics.cpp) is the frame buffer: its memory is a function from byte offsets to
-- bytes, and addresses are computed in the unsigned arithmetic of the source. Window
-- (kernel/window.hpp, kernel/window.cpp) draws a window to a frame buffer by Copy, or pixel by pixel
-- where it has a transparent colour. Layer (kernel/layer.hpp, kernel/layer.cpp) is LayerManager: it
-- draws the windows of its stack to the back buffer and copies that to the screen. A pointer to a layer
-- is the layer's id. Layer.Active is ActiveLayer, CloseLayer and ProcessLayerMessage, which tell tasks
-- by the scheduler's send_message; what a window paints into itself when it is activated is an argument.
-- Mouse (kernel/mouse.hpp, kernel/mouse.cpp) handles the reports of the mouse over the layers and the
-- scheduler: on_interrupt moves the mouse's layer by move_layer, drags another by move_relative,
-- activates layers by activate and sends messages to the task of the active layer. The configuration of
-- the screen, which does not change, is an argument.
-- All loops of these are over lists or over the numbers of rows and columns, so none needs fuel.
--
-- Text (kernel/font.cpp) has the decoder of UTF-8 and WriteString, and Terminal (kernel/terminal.cpp)
-- Print, which uses that decoder: the cursor, and what is written at it. The two loops over a text take
-- one unit of fuel for each character and one more; on bytes that are no UTF-8 they may not end.
-- Terminal.Arguments is MakeArgVector, whose loop has one unit of fuel for each character of the text
-- and one more. Keyboard (kernel/keyboard.cpp) has the key maps and the message that a key sends to the
-- main task.
--
-- Paging (kernel/paging.hpp, kernel/paging.cpp) is the page tables of four levels over the frame
-- allocator: memory is the words of each frame, a pointer to a table is its frame, and a call is a
-- function of the memory and the allocator that succeeds or reports an error. Paging.Setup is
-- SetupPageMaps, Paging.Copy CopyPageMaps, Paging.Clean CleanPageMaps and Paging.Fault HandlePageFault
-- with the handlers that it chooses from. The loop of SetupPageMap has at most one round for each of
-- the 512 entries of a table, which is its fuel; the other loops count to 512. What the processor reads
-- at an address and the Load of a file are arguments. Elf (kernel/elf.hpp and LoadElf of
-- kernel/terminal.cpp) loads the segments of a program into pages of SetupPageMaps; the stores to the
-- addresses of the program are arguments.
--
-- Not modelled: the stack and the files of a Task, the identity page table that the kernel starts with,
-- the control registers and the TLB, the shapes of characters and of the mouse cursor, the decoration of
-- windows, the console, the rest of USB (the event ring, devices and drivers), system
-- calls and the rest of the terminal; processor set-up, port access and the boot loader, which are input
-- and output; the copy of an image library under apps/gview.
pub mod Prelude
pub mod Error
pub mod Memory
pub mod Message
pub mod Task
pub mod Timer
pub mod Fat
pub mod ArrayMap
pub mod Graphics
pub mod Window
pub mod Layer
pub mod Mouse
pub mod Keyboard
pub mod Paging
pub mod Elf
pub mod Pool
pub mod Ring
pub mod Text
pub mod Terminal
