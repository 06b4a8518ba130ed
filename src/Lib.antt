-- ===== src/Lib.antt =====
-- Verification of BalletMini, the browser for OMS pages (BalletMini/), and of KillSwitch (KillSwitch/).
--
-- The program's core is a streaming parser. The server sends a page in parts; `OMS_DataArrived`
-- (BalletMini/parse_oms.c) takes each part, unpacks it if the page is packed, and runs a state machine
-- over the bytes that it has. The items of the page go into a view by the functions of
-- BalletMini/additems.c. The pages that the user has visited stand on a stack (BalletMini/urlstack.c),
-- which the buttons "Back" and "Forward" of BalletMini/main.c move over, and which keeps what the user
-- typed into their forms. Text is read, converted and sent by BalletMini/string_works.c. A page is asked
-- for and read by BalletMini/inet.c, which sends its parts to the parser in messages; the parameters of
-- a form, which it sends with the request, come from `collectItemsParams` (BalletMini/main.c) and
-- BalletMini/upload.c. The title of a page goes into the history (BalletMini/history.c), and
-- BalletMini/display_utils.c breaks the view into lines.
--
-- What the browser does before its window opens is in the rest of BalletMini/main.c, in
-- BalletMini/lang.c, BalletMini/rand.c and BalletMini/file_works.c; a file to be sent is chosen in the window
-- of BalletMini/fileman.c. KillSwitch/ is a program of its own.
--
-- Prelude: shared names; Prelude/Runs has the runs that may fault, where a fault is what C leaves
--   undefined (a read out of bounds, a pointer that was never set).
-- Encoding: string_works.c. Codepage has char16to8 and char8to16, Utf8 has oms2ws and utf82win, Web has
--   ToWeb, Compare has strcmp_nocase, CompareWchar, extract_omstr and omstrcmp.
-- PageStack: urlstack.c. State has the stack and the operations on its top, Forms has what the user
--   typed, Clock has the id that a page is given, Navigation has the two buttons.
-- Oms: parse_oms.c and additems.c. State has VIEWDATA; Items, Pictures and Forms have additems.c;
--   Header, Tags, TagData and Stages have the states of the parser in their order, and Loop has
--   `OMS_DataArrived`. Shape is the invariant between two rounds, Safety is its proof, and
--   RoundTrip has a printer of text pages. `IsPageFault` names the faults that the parser itself could
--   make: to read behind the page, and to go round for ever. The other faults are those of what it
--   calls: a style that was never sent, a code that does not fit its buffer, a list never begun. The readers of
--   pictures (BalletMini/readimg.c, in Pictures) know no end of a picture, and have a fault of their own.
-- Net: inet.c. State has its static variables, Send has bsend, Receive has get_answer and writecache,
--   Connect has create_connect, end_socket, free_socket, ParseSocketMsg, StartINET and StopINET, Request
--   has SendPost. Machine has the steps: messages, tasks of the helper process, the timer, and what the
--   browser asks for, in any order; Machine/Diagram is the connection as its user sees it.
-- History: history.c. Lines has the file, Order the loops over the array of entries, Adding and Writing
--   the search and the loop that writes, and Recent what a visit makes of the entries.
-- Upload: collectItemsParams of BalletMini/main.c and upload.c. Form has the two passes, which count and
--   write; Bounds, Fitting and Whole compare them, and Files has the file that is sent.
-- Display: the lines of display_utils.c. Layout has SearchNextDisplayLine, Lines has the lines that are found
--   so far, LineDown, LineUp, scrollUp and the search for references. A page of n characters has n + 1
--   rounds of the search, and Ends is about these; References is about what FindReference finds. Position has
--   GoToLocalLinkPos of main.c and the loops by which the window goes to a line, Finding has FindStringOnPage,
--   and Restoring is about the way back to a line. Rendering has RenderPage without what it draws, Keys has
--   scrollDown and the keys of main.c that scroll and go from link to link; Marks, Walking, Chosen and Links
--   are about the links on the screen. Where a loop adds or passes lines, its rounds are a parameter.
-- Browser: the part of `maincsm_onmessage` (main.c) that goes from page to page, with CreateViewGUI, method1, GotoLink
--   and GotoFile; Back follows the button from the closed window to the new one, Names is about the names of
--   pages' files. A message that waits comes before a task that waits. Arriving has StartGetFile, which sends
--   the parts of a file, and what is done with a part (IPC_DATA_ARRIVED) and with the end (IPC_DATA_END);
--   Leaving has method2. Parts is about the parts that are sent, Restored and Leaving are about a page that
--   is shown again.
-- Bookmarks: the bookmarks of BalletMini/mainmenu.c, whose list is that of fileman.c once more: the window
--   and its keys; Editing has how a bookmark is made, changed and deleted, Order, Written and
--   Opened are about the list and about a bookmark that is opened.
-- FileManager: fileman.c, the window in which a file is chosen. Order has the list of a folder, Menu what
--   stands at a place of the window.
-- Paths: file_works.c, the names of files in which a `$` and a word stand for a folder or the time.
-- Startup: Random has rand.c, Auth the identity of the phone and its file (LoadAuthCode, SaveAuthCode and
--   the middle of `main`), Language and Texts have lang.c, Address has the first address (ReadUrlFile,
--   ParseInputFilename). Word, Identity, Created, Reading and Entries are about what is read back.
-- KillSwitch: Settings has conf_data.c and conf_loader.c, Stopwatch stopwatch.c, and Timer main.c. A look of
--   the timer is a `Tick`: what the ports and the clock show. Holding and Course are about sequences of
--   looks, Loading is about a start.
--
-- Bytes are lists of native numbers, `char` is unsigned and `int` has 32 bits, as on the phone.
-- Positions in a page are plain numbers: pages are far below 2^31 bytes. The parsing loop has
-- `loop_fuel` rounds, four for each byte and five more, which Oms/Safety is about. The loop over
-- ZLib's output has a number of rounds that is a parameter, since `inflate` is one: where it runs
-- out, the run faults as out of fuel.
--
-- ZLib, libpng, libjpeg, the phone's functions and the settings are parameters (`Env` and the
-- arguments of `data_arrived`). Of an image only the size is kept. What the phone answers to the calls of
-- inet.c (the name server, `socket`, `connect`, `send`, `recv`) are arguments of its functions: a socket of
-- -1 is `none`, `send` takes no more than it is offered, and the file of a page can be opened. It is the
-- build with the timer for a second try (without NEWSGOLD). The loop over a file that is sent has a round for
-- each byte and one more. `Base64Encode`, the file system, the free memory, the fonts and the setting for word
-- wrap are parameters of Upload and Display. What each call of `_read` leaves, what a round sees of TERMINATED
-- and STOPPED, and whether a window is on top, are parameters of Browser/Arriving.
--
-- The date and the time, `snprintf` of numbers, `_mkdir`, `sscanf` and the layout of the settings in memory
-- are parameters of Paths, Startup and KillSwitch; a file is its size and its bytes.
--
-- Not modelled: drawing (the rest of display_utils.c), the other
-- windows and menus, url_utils.c (a copy of GNU Wget code),
-- debug output, memory allocation, and the other tools beside the browser.
pub mod Prelude
pub mod Encoding
pub mod PageStack
pub mod Oms
pub mod Net
pub mod History
pub mod Upload
pub mod Display
pub mod Browser
pub mod Bookmarks
pub mod FileManager
pub mod Paths
pub mod Startup
pub mod KillSwitch
